-- ===== src/Ipc/AppSrc/State.antt =====
-- gst/nvmmappsrc/gstnvmmappsrc.cpp: the element's private state, as `init` and the property
-- setters leave it, and the ring of held references.
use gst_nvmm_cpp.Common.{ℕ, List, [], Option, none, some, Bool, true, false, replicate}
use gst_nvmm_cpp.Ipc.Os.{FileName}
use gst_nvmm_cpp.Ipc.Protocol.{pool_capacity}
use gst_nvmm_cpp.Ipc.Sink.State.{default_name}

abbrev pub release_delay : ℕ
release_delay = 12

-- `ptr` points at `ref_counts[i]`: it is the index `i`, or null.
pub record RefSlot : Type 0 where
  pub ptr : Option ℕ
  pub active : Bool

abbrev pub no_ref : RefSlot
no_ref = record { ptr = none; active = false }

-- `caps` is what was set on the pad: format, width and height. The surface of a slot is its handle.
pub record AppSrc : Type 0 where
  pub shm_name : FileName
  pub shm_fd : Option ℕ
  pub shm_ptr : Option ℕ
  pub shm_size : ℕ
  pub last_frame_number : ℕ
  pub caps : Option (ℕ × ℕ × ℕ)
  pub is_live : Bool
  pub import_metadata : Bool
  pub meta_available : Bool
  pub socket_fd : Option ℕ
  pub pool_size : ℕ
  pub imported_surfaces : List (Option ℕ)
  pub release_ring : List RefSlot
  pub ring_head : ℕ

-- gst_nvmm_app_src_init
abbrev pub init : AppSrc
init = record {
  shm_name = default_name;
  shm_fd = none;
  shm_ptr = none;
  shm_size = 0;
  last_frame_number = 0;
  caps = none;
  is_live = true;
  import_metadata = false;
  meta_available = false;
  socket_fd = none;
  pool_size = 0;
  imported_surfaces = replicate pool_capacity none;
  release_ring = replicate release_delay no_ref;
  ring_head = 0;
}

pub data Property : Type 0 where
  prop_shm_name : Option FileName → Property
  prop_is_live : Bool → Property
  prop_import_metadata : Bool → Property

abbrev or_empty : Option FileName → FileName
or_empty none = []
or_empty (some name) = name

-- gst_nvmm_app_src_set_property
unfoldable pub set_property : Property → AppSrc → AppSrc
set_property (prop_shm_name v) s = record s { shm_name = or_empty v }
set_property (prop_is_live b) s = record s { is_live = b }
set_property (prop_import_metadata b) s = record s { import_metadata = b }
