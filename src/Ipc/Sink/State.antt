-- ===== src/Ipc/Sink/State.antt =====
-- gst/nvmmsink/gstnvmmsink.cpp: the element's private state, as `init` and the property setters
-- leave it.
use gst_nvmm_cpp.Common.{
  ℕ, List, [], ◌∷◌, Option, none, some, Bool, false, replicate, ltb, if◌then◌else◌,
}
use gst_nvmm_cpp.Ipc.Protocol.{pool_capacity, min_pool_size}
use gst_nvmm_cpp.Ipc.Os.{FileName}

-- What the element reads of NvBufSurfaceMapParams: it passes the rest on as it stands.
pub record MapParams : Type 0 where
  pub fd : ℕ
  pub width : ℕ
  pub height : ℕ
  pub color_format : ℕ
  pub plane_pitch : List ℕ
  pub plane_offset : List ℕ

-- A surface that NvBufSurfaceCreate gave: its handle, and the fields that the element reads.
pub record Created : Type 0 where
  pub handle : ℕ
  pub buffer_desc : ℕ
  pub pitch : List ℕ
  pub offset : List ℕ
  pub map_params : Option MapParams

-- `none` is a null surface, the descriptor -1, and parameters that are all zero.
pub record PoolBuffer : Type 0 where
  pub surface : Option Created
  pub fd : Option ℕ
  pub map_params : Option MapParams

abbrev pub no_buffer : PoolBuffer
no_buffer = record { surface = none; fd = none; map_params = none }

pub record VideoInfo : Type 0 where
  pub width : ℕ
  pub height : ℕ
  pub format : ℕ
  pub n_planes : ℕ

abbrev pub no_info : VideoInfo
no_info = record { width = 0; height = 0; format = 0; n_planes = 0 }

-- A descriptor -1 and a null pointer are `none`.
pub record Sink : Type 0 where
  pub shm_name : FileName
  pub shm_fd : Option ℕ
  pub shm_ptr : Option ℕ
  pub shm_size : ℕ
  pub frame_number : ℕ
  pub video_info : VideoInfo
  pub export_metadata : Bool
  pub meta_active : Bool
  pub pool : List PoolBuffer
  pub pool_size : ℕ
  pub write_idx : ℕ
  pub pool_allocated : Bool
  pub socket_path : FileName
  pub listen_fd : Option ℕ
  pub running : Bool
  pub client_fds : List ℕ

-- "/nvmm_sink_0"
abbrev pub default_name : FileName
default_name =
    b'/' ∷ b'n' ∷ b'v' ∷ b'm' ∷ b'm' ∷ b'_' ∷ b's' ∷ b'i' ∷ b'n' ∷ b'k' ∷ b'_' ∷ b'0' ∷ []

-- gst_nvmm_sink_init
abbrev pub init : Sink
init = record {
  shm_name = default_name;
  shm_fd = none;
  shm_ptr = none;
  shm_size = 0;
  frame_number = 0;
  video_info = no_info;
  export_metadata = false;
  meta_active = false;
  pool = replicate pool_capacity no_buffer;
  pool_size = pool_capacity;
  write_idx = 0;
  pool_allocated = false;
  socket_path = [];
  listen_fd = none;
  running = false;
  client_fds = [];
}

-- CLAMP(x, low, high) of GLib
unfoldable pub clamp : ℕ → ℕ → ℕ → ℕ
clamp x low high = if ltb high x then high else if ltb x low then low else x

pub data Property : Type 0 where
  prop_shm_name : Option FileName → Property
  prop_pool_size : ℕ → Property
  prop_export_metadata : Bool → Property

abbrev or_empty : Option FileName → FileName
or_empty none = []
or_empty (some name) = name

-- gst_nvmm_sink_set_property
unfoldable pub set_property : Property → Sink → Sink
unfolding clamp
set_property (prop_shm_name v) s = record s { shm_name = or_empty v }
set_property (prop_pool_size n) s = record s { pool_size = clamp n min_pool_size pool_capacity }
set_property (prop_export_metadata b) s = record s { export_metadata = b }
