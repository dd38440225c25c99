-- ===== src/Ipc/Metas.antt =====
-- Where the metadata records of a segment lie (gst/common/shm_protocol.h).
use gst_nvmm_cpp.Common.{ℕ, ◌+◌, ◌≤◌, ◌<◌, true, arith}
use gst_nvmm_cpp.Ipc.Protocol.{
  pool_capacity, header_bytes, frame_meta_bytes, segment_size, meta_address,
}

-- The metadata records of two slots do not overlap, lie behind the header, and end within the segment
-- that the producer makes when it exports metadata.
pub meta_address-apart :
    (base i j : ℕ)
    → i < j
    → j < pool_capacity
    → (base + header_bytes ≤ meta_address base i)
      × (meta_address base i + frame_meta_bytes ≤ meta_address base j)
      × (meta_address base j + frame_meta_bytes ≤ base + segment_size true)
unfolding meta_address segment_size
meta_address-apart base i j h k = (omega arith, omega arith, omega arith)
