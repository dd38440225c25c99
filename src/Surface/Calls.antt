-- ===== src/Surface/Calls.antt =====
-- gst/common/nvbufsurface_mock.h: the calls on a surface.
use gst_nvmm_cpp.Common.{
  ℕ, zero, suc, ◌+◌, List, [], Option, none, some, Bool, true, false, set, get_or, take, min, leb,
  ltb, length, ◌++◌, map, if◌then◌else◌, replicate,
}
use gst_nvmm_cpp.Common.Int.{ℤ, pos, negsuc}
use gst_nvmm_cpp.Surface.Mock.{
  Plane, BufSurfaceParams, BufSurface, Callocs, buf_create, write_at, read_at, map_plane,
  map_planes, unmap_plane, unmap_planes, max_planes,
}

-- Only the fields that the calls read are written out.
pub record BufMapParams : Type 0 where
  pub fd : ℕ
  pub color_format : ℕ
  pub mem_type : ℕ
  pub width : ℕ
  pub height : ℕ
  pub num_planes : ℕ
  pub plane_pitch : List ℕ
  pub plane_offset : List ℕ
  pub plane_psize : List ℕ

abbrev pub no_params : BufSurfaceParams
no_params = record {
  width = 0;
  height = 0;
  pitch = 0;
  color_format = 0;
  layout = 0;
  buffer_desc = 0;
  data_size = 0;
  data_ptr = [];
  planes = [];
  mapped = [];
}

-- The surface of an index, unless the index is negative or not filled.
unfoldable pub filled : BufSurface → ℤ → Option ℕ
filled s (pos i) = if leb s.num_filled i then none else some i
filled s (negsuc i) = none

abbrev pub surface_at : BufSurface → ℕ → BufSurfaceParams
surface_at s i = get_or s.surface_list i no_params

abbrev pub put_surface : BufSurface → ℕ → BufSurfaceParams → BufSurface
put_surface s i p = record s { surface_list = set s.surface_list i p }

-- One plane, or all where the number is negative; a plane that is not there is left out.
unfoldable pub map_request : (ℕ → Bool) → ℤ → BufSurfaceParams → Bool × BufSurfaceParams
unfolding map_planes map_plane
map_request room (pos pl) p =
    if ltb pl (length p.planes) then map_plane (room pl) pl p else (true, p)
map_request room (negsuc pl) p = map_planes room (length p.planes) 0 p

unfoldable pub unmap_request : ℤ → BufSurfaceParams → BufSurfaceParams
unfolding unmap_planes unmap_plane
unmap_request (pos pl) p = if ltb pl (length p.planes) then unmap_plane pl p else p
unmap_request (negsuc pl) p = unmap_planes (length p.planes) 0 p

-- NvBufSurfaceMap and NvBufSurfaceUnMap: `false` is -1.
unfoldable pub buf_map : (ℕ → Bool) → BufSurface → ℤ → ℤ → Bool × BufSurface
unfolding filled map_request
buf_map room s index plane = elim (filled s index) [
  | none ↦ (false, s)
  | some i ↦ let (ok, p) = map_request room plane (surface_at s i) in (ok, put_surface s i p)
]

unfoldable pub buf_unmap : BufSurface → ℤ → ℤ → Bool × BufSurface
unfolding filled unmap_request
buf_unmap s index plane = elim (filled s index) [
  | none ↦ (false, s)
  | some i ↦ (true, put_surface s i (unmap_request plane (surface_at s i)))
]

-- The first four entries, with zeros behind the planes in use.
abbrev pub four : List ℕ → List ℕ
four l = take max_planes (l ++ replicate max_planes 0)

-- NvBufSurfaceGetMapParams
unfoldable pub get_map_params : BufSurface → ℕ → BufMapParams
get_map_params s idx =
    let p = surface_at s idx in
    record {
      fd = p.buffer_desc;
      color_format = p.color_format;
      mem_type = s.mem_type;
      width = p.width;
      height = p.height;
      num_planes = length p.planes;
      plane_pitch = four (map (λ (q : Plane). q.pitch) p.planes);
      plane_offset = four (map (λ (q : Plane). q.offset) p.planes);
      plane_psize = four (map (λ (q : Plane). q.psize) p.planes);
    }

-- NvBufSurfaceImport
unfoldable pub buf_import : Callocs → BufMapParams → Option BufSurface
unfolding buf_create
buf_import room m = buf_create room 1 (record {
  width = m.width;
  height = m.height;
  color_format = m.color_format;
  layout = 0;
  mem_type = m.mem_type;
})

abbrev pub smaller : ℕ → ℕ → ℕ
smaller n m = if ltb m n then m else n

-- The first bytes of one surface's data into another's.
abbrev pub copy_data : BufSurfaceParams → BufSurfaceParams → BufSurfaceParams
copy_data src dst = record dst {
  data_ptr = write_at dst.data_ptr 0 (read_at src.data_ptr 0 (smaller src.data_size dst.data_size));
}

-- NvBufSurfaceCopy
unfoldable pub buf_copy : BufSurface → BufSurface → BufSurface
buf_copy src dst = put_surface dst 0 (copy_data (surface_at src 0) (surface_at dst 0))

-- The loop of NvBufSurfTransform: `k` surfaces are left, and this one is `i`.
unfoldable pub transform_from : ℕ → ℕ → BufSurface → BufSurface → BufSurface
transform_from zero i src dst = dst
transform_from (suc k) i src dst =
    transform_from k (i + 1) src
      (put_surface dst i (copy_data (surface_at src i) (surface_at dst i)))

-- NvBufSurfTransform
unfoldable pub buf_transform : BufSurface → BufSurface → BufSurface
unfolding transform_from
buf_transform src dst = transform_from (min src.num_filled dst.batch_size) 0 src dst
