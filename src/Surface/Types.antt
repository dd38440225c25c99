-- ===== src/Surface/Types.antt =====
-- gst/common/nvmm_types.hpp, and the conversions to the library's numbers in
-- gst/common/nvmm_buffer.cpp.
use gst_nvmm_cpp.Common.{ℕ, List, Option, ◌==◌, if◌then◌else◌}
use gst_nvmm_cpp.Surface.Mock.{
  format_gray8, format_yuv420, format_nv12, format_nv21, format_rgba, format_bgra,
}

-- The detail text of an error is left out.
pub data ErrorCode : Type 0 where
  k_success k_invalid_param k_out_of_memory k_not_supported k_map_failed k_unmap_failed : ErrorCode
  k_transform_failed k_dma_buf_failed k_surface_create_failed k_surface_destroy_failed : ErrorCode

pub data Result {ℓ} (A : Type ℓ) : Type ℓ where
  ok : A → Result A
  err : ErrorCode → Result A

pub data ColorFormat : Type 0 where
  k_nv12 k_rgba k_bgra k_i420 k_nv21 k_gray8 : ColorFormat

pub data MemoryType : Type 0 where
  k_default k_cuda_device k_cuda_pinned k_cuda_unified k_surface_array k_handle k_system_heap :
      MemoryType

pub record PlaneInfo : Type 0 where
  pub width : ℕ
  pub height : ℕ
  pub pitch : ℕ
  pub offset : ℕ
  pub size : ℕ
  pub bytes_per_pixel : ℕ

pub record SurfaceParams : Type 0 where
  pub width : ℕ
  pub height : ℕ
  pub color_format : ColorFormat
  pub mem_type : MemoryType
  pub num_surfaces : ℕ

-- `addr` is what the address points at, `none` where it is null.
pub record ByteSpan : Type 0 where
  pub addr : Option (List ℕ)
  pub size : ℕ

unfoldable pub to_nv_format : ColorFormat → ℕ
to_nv_format k_nv12 = format_nv12
to_nv_format k_rgba = format_rgba
to_nv_format k_bgra = format_bgra
to_nv_format k_i420 = format_yuv420
to_nv_format k_nv21 = format_nv21
to_nv_format k_gray8 = format_gray8

unfoldable pub from_nv_format : ℕ → ColorFormat
from_nv_format fmt =
    if fmt == format_nv12
    then k_nv12
    else if fmt == format_rgba
    then k_rgba
    else if fmt == format_bgra
    then k_bgra
    else if fmt == format_yuv420
    then k_i420
    else if fmt == format_nv21
    then k_nv21
    else if fmt == format_gray8
    then k_gray8
    else k_nv12

unfoldable pub to_nv_memtype : MemoryType → ℕ
to_nv_memtype k_default = 0
to_nv_memtype k_cuda_device = 2
to_nv_memtype k_cuda_pinned = 1
to_nv_memtype k_cuda_unified = 3
to_nv_memtype k_surface_array = 4
to_nv_memtype k_handle = 5
to_nv_memtype k_system_heap = 6

unfoldable pub from_nv_memtype : ℕ → MemoryType
from_nv_memtype mt =
    if mt == 0
    then k_default
    else if mt == 2
    then k_cuda_device
    else if mt == 1
    then k_cuda_pinned
    else if mt == 3
    then k_cuda_unified
    else if mt == 4
    then k_surface_array
    else if mt == 5
    then k_handle
    else if mt == 6
    then k_system_heap
    else k_default
