-- ===== src/Ipc/Protocol.antt =====
-- gst/common/shm_protocol.h: the header of the segment, the metadata records, and where they lie.
use gst_nvmm_cpp.Common.{ℕ, ◌+◌, ◌*◌, List, Bool, if◌then◌else◌}
use gst_nvmm_cpp.Common.Int.{ℤ}
use gst_nvmm_cpp.Common.Float.{F32}

abbrev pub shm_magic : ℕ
shm_magic = 0x4E564D4D

abbrev pub shm_version : ℕ
shm_version = 3

abbrev pub pool_capacity : ℕ
pool_capacity = 16

abbrev pub min_pool_size : ℕ
min_pool_size = 13

abbrev pub meta_label_len : ℕ
meta_label_len = 64

abbrev pub meta_max_objects : ℕ
meta_max_objects = 256

abbrev pub flag_truncated : ℕ
flag_truncated = 0x1

-- The padding `_reserved` is left out. A path is its bytes before the NUL.
pub record ShmHeader : Type 0 where
  pub magic : ℕ
  pub version : ℕ
  pub width : ℕ
  pub height : ℕ
  pub format : ℕ
  pub pool_size : ℕ
  pub num_planes : ℕ
  pub pitches : List ℕ
  pub offsets : List ℕ
  pub socket_path : List ℕ
  pub write_idx : ℕ
  pub frame_number : ℕ
  pub timestamp_ns : ℕ
  pub ready : ℕ
  pub ref_counts : List ℤ
  pub meta_enabled : ℕ
  pub meta_objects : ℕ

-- A label is its bytes before the NUL.
pub record DetObject : Type 0 where
  pub left : F32
  pub top : F32
  pub width : F32
  pub height : F32
  pub class_id : ℤ
  pub confidence : F32
  pub tracker_id : ℕ
  pub label : List ℕ

pub record FrameMeta : Type 0 where
  pub frame_number : ℕ
  pub infer_width : ℕ
  pub infer_height : ℕ
  pub num_objects : ℕ
  pub flags : ℕ
  pub objects : List DetObject

-- What is mapped: the header and the metadata records behind it.
pub record Segment : Type 0 where
  pub header : ShmHeader
  pub metas : List FrameMeta

-- sizeof(NvmmShmHeader), sizeof(NvmmDetObject) and sizeof(NvmmFrameMeta), with the alignment of
-- their 64-bit fields.
abbrev pub header_bytes : ℕ
header_bytes = 328

abbrev pub object_bytes : ℕ
object_bytes = 96

abbrev pub frame_meta_bytes : ℕ
frame_meta_bytes = 24 + meta_max_objects * object_bytes

unfoldable pub segment_size : Bool → ℕ
segment_size meta_enabled =
    header_bytes + (if meta_enabled then pool_capacity * frame_meta_bytes else 0)

-- The address of record `idx`.
unfoldable pub meta_address : ℕ → ℕ → ℕ
meta_address base idx = base + header_bytes + idx * frame_meta_bytes
