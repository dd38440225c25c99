-- ===== src/Surface/Buffer.antt =====
-- gst/common/nvmm_buffer.cpp: the owner of a surface.
use gst_nvmm_cpp.Common.{
  ℕ, ◌-◌, ◌%◌, ◌^◌, List, ◌∷◌, Option, none, some, Bool, true, false, ◌||◌, not, get_or, length,
  ltb, ◌==◌, if◌then◌else◌,
}
use gst_nvmm_cpp.Common.Int.{ℤ, pos, negsuc}
use gst_nvmm_cpp.Ipc.Os.{erase}
use gst_nvmm_cpp.Surface.Mock.{BufSurfaceParams, BufSurface, Callocs, buf_create, plane_at}
use gst_nvmm_cpp.Surface.Calls.{buf_map, buf_unmap, surface_at}
use gst_nvmm_cpp.Surface.Types.{
  Result, ColorFormat, MemoryType, PlaneInfo, SurfaceParams, ByteSpan, to_nv_format, from_nv_format,
  to_nv_memtype, from_nv_memtype, k_invalid_param, k_map_failed, k_unmap_failed, k_dma_buf_failed,
  k_surface_create_failed, k_nv12, k_default, ok, err,
}

-- A surface with the number that tells it from other surfaces. The surfaces that exist are a list of
-- these numbers.
pub record Owned : Type 0 where
  pub handle : ℕ
  pub buf : BufSurface

pub record NvmmBuffer : Type 0 where
  pub surface : Option Owned
  pub mapped : Bool
  pub mapped_plane : ℤ

-- A buffer that was default-constructed, or made from a surface.
abbrev pub owner_of : Option Owned → NvmmBuffer
owner_of s = record { surface = s; mapped = false; mapped_plane = negsuc 0 }

-- ~NvmmBuffer: the surface's copies go with it, unmapped or not.
abbrev pub destroy : NvmmBuffer → List ℕ → List ℕ
destroy b live = elim b.surface [ none ↦ live | some s ↦ erase s.handle live ]

-- The move constructor: the new buffer and the old one.
unfoldable pub move_from : NvmmBuffer → NvmmBuffer × NvmmBuffer
move_from other = (
  record { surface = other.surface; mapped = other.mapped; mapped_plane = negsuc 0 },
  record other { surface = none; mapped = false },
)

-- The move assignment between two different buffers: both, and the surfaces that are left.
unfoldable pub move_assign : NvmmBuffer → NvmmBuffer → List ℕ → NvmmBuffer × NvmmBuffer × List ℕ
move_assign self other live = (
  record self { surface = other.surface; mapped = other.mapped },
  record other { surface = none; mapped = false },
  destroy self live,
)

-- The caller gets the surface.
unfoldable pub release : NvmmBuffer → Option Owned × NvmmBuffer
release b = (b.surface, record b { surface = none; mapped = false })

-- NvmmBuffer::create; `handle` is the new surface's number.
unfoldable pub create : Callocs → ℕ → SurfaceParams → List ℕ → Result NvmmBuffer × List ℕ
unfolding to_nv_format to_nv_memtype
create room handle params live =
    if params.width == 0 || params.height == 0
    then (err k_invalid_param, live)
    else elim (buf_create room params.num_surfaces (record {
      width = params.width;
      height = params.height;
      color_format = to_nv_format params.color_format;
      layout = 0;
      mem_type = to_nv_memtype params.mem_type;
    })) [
      | none ↦ (err k_surface_create_failed, live)
      | some s ↦ (
        ok (
            owner_of
              (some (record { handle = handle; buf = record s { num_filled = s.batch_size } }))),
        handle ∷ live,
      )
    ]

-- NvmmBuffer::from_fd: `found` is what NvBufSurfaceFromFd gives.
unfoldable pub from_fd : Option Owned → Result NvmmBuffer
from_fd none = err k_dma_buf_failed
from_fd (some s) = ok (owner_of (some s))

-- static_cast<int> of a 32-bit number
abbrev pub to_int : ℕ → ℤ
to_int n = if ltb n (2 ^ 31) then pos n else negsuc (2 ^ 32 - 1 - n)

-- What map_read and map_write hand out.
abbrev pub span_of : BufSurface → ℕ → ByteSpan
span_of s plane =
    let p = surface_at s 0 in
    if ltb plane (length p.planes)
    then record { addr = get_or p.mapped plane none; size = (plane_at p plane).psize }
    else record { addr = get_or p.mapped 0 none; size = p.data_size }

-- NvmmBuffer::map_read and map_write, which differ in the flag and in a synchronisation that neither
-- changes the state.
unfoldable pub map_buffer : (ℕ → Bool) → ℕ → NvmmBuffer → Result ByteSpan × NvmmBuffer
map_buffer room plane b = elim b.surface [
  | none ↦ (err k_invalid_param, b)
  | some o ↦
      let (mapped, s) = buf_map room o.buf (pos 0) (to_int plane) in
      if mapped
      then (
        ok (span_of s plane),
        record {
          surface = some (record o { buf = s });
          mapped = true;
          mapped_plane = to_int plane;
        },
      )
      else (err k_map_failed, record b { surface = some (record o { buf = s }) })
]

-- NvmmBuffer::unmap
unfoldable pub unmap : NvmmBuffer → Result (Unit {0}) × NvmmBuffer
unmap b = elim b.surface [
  | none ↦ (ok tt, b)
  | some o ↦
      let (unmapped, s) = buf_unmap o.buf (pos 0) b.mapped_plane in
      if not b.mapped
      then (ok tt, b)
      else if unmapped
      then (ok tt, owner_of (some (record o { buf = s })))
      else (err k_unmap_failed, record b { surface = some (record o { buf = s }) })
]

abbrev pub first : Owned → BufSurfaceParams
first o = surface_at o.buf 0

-- NvmmBuffer::export_fd, which is an `int` of the 64-bit descriptor.
unfoldable pub export_fd : NvmmBuffer → Result ℕ
export_fd b = elim b.surface [
  | none ↦ err k_invalid_param
  | some o ↦
      let fd = (first o).buffer_desc % 2 ^ 32 in
      if ltb fd (2 ^ 31) then ok fd else err k_dma_buf_failed
]

unfoldable pub width : NvmmBuffer → ℕ
width b = elim b.surface [ none ↦ 0 | some o ↦ (first o).width ]

unfoldable pub height : NvmmBuffer → ℕ
height b = elim b.surface [ none ↦ 0 | some o ↦ (first o).height ]

unfoldable pub format : NvmmBuffer → ColorFormat
unfolding from_nv_format
format b = elim b.surface [ none ↦ k_nv12 | some o ↦ from_nv_format (first o).color_format ]

unfoldable pub mem_type : NvmmBuffer → MemoryType
unfolding from_nv_memtype
mem_type b = elim b.surface [ none ↦ k_default | some o ↦ from_nv_memtype o.buf.mem_type ]

unfoldable pub num_planes : NvmmBuffer → ℕ
num_planes b = elim b.surface [ none ↦ 0 | some o ↦ length (first o).planes ]

unfoldable pub data_size : NvmmBuffer → ℕ
data_size b = elim b.surface [ none ↦ 0 | some o ↦ (first o).data_size ]

abbrev pub no_plane_info : PlaneInfo
no_plane_info = record {
  width = 0;
  height = 0;
  pitch = 0;
  offset = 0;
  size = 0;
  bytes_per_pixel = 0;
}

-- NvmmBuffer::plane_info
unfoldable pub plane_info : ℕ → NvmmBuffer → PlaneInfo
plane_info plane b = elim b.surface [
  | none ↦ no_plane_info
  | some o ↦
      if ltb plane (length (first o).planes)
      then (let q = plane_at (first o) plane in
          record {
            width = q.width;
            height = q.height;
            pitch = q.pitch;
            offset = q.offset;
            size = q.psize;
            bytes_per_pixel = q.bytes_per_pix;
          })
      else no_plane_info
]
