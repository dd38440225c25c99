-- ===== src/Surface/Mock.antt =====
-- gst/common/nvbufsurface_mock.h: surfaces in system memory, with the layout of their planes. Enum
-- values are numbers, as in C.
use gst_nvmm_cpp.Common.{
  ℕ, zero, suc, ◌+◌, ◌*◌, ◌/◌, ◌%◌, ◌^◌, List, [], ◌∷◌, Option, none, some, Bool, true, false, ◌||◌,
  ◌&&◌, set, get_or, replicate, ltb, ◌==◌, if◌then◌else◌,
}

abbrev pub format_gray8 : ℕ
format_gray8 = 1

abbrev pub format_yuv420 : ℕ
format_yuv420 = 2

abbrev pub format_nv12 : ℕ
format_nv12 = 6

abbrev pub format_nv21 : ℕ
format_nv21 = 8

abbrev pub format_rgba : ℕ
format_rgba = 19

abbrev pub format_bgra : ℕ
format_bgra = 20

abbrev pub max_planes : ℕ
max_planes = 4

pub record Plane : Type 0 where
  pub width : ℕ
  pub height : ℕ
  pub pitch : ℕ
  pub offset : ℕ
  pub psize : ℕ
  pub bytes_per_pix : ℕ

abbrev pub no_plane : Plane
no_plane = record { width = 0; height = 0; pitch = 0; offset = 0; psize = 0; bytes_per_pix = 0 }

-- `planes` has the `num_planes` planes in use; `data` is what `dataPtr` points at, and `mapped` what
-- the four mapped addresses point at, `none` where they are null.
pub record BufSurfaceParams : Type 0 where
  pub width : ℕ
  pub height : ℕ
  pub pitch : ℕ
  pub color_format : ℕ
  pub layout : ℕ
  pub buffer_desc : ℕ
  pub data_size : ℕ
  pub data_ptr : List ℕ
  pub planes : List Plane
  pub mapped : List (Option (List ℕ))

pub record BufSurface : Type 0 where
  pub batch_size : ℕ
  pub num_filled : ℕ
  pub mem_type : ℕ
  pub surface_list : List BufSurfaceParams

pub record CreateParams : Type 0 where
  pub width : ℕ
  pub height : ℕ
  pub color_format : ℕ
  pub layout : ℕ
  pub mem_type : ℕ

abbrev pub plane_count : ℕ → ℕ
plane_count fmt =
    if fmt == format_nv12 || fmt == format_nv21 then 2 else if fmt == format_yuv420 then 3 else 1

abbrev pub bpp : ℕ → ℕ
bpp fmt = if fmt == format_rgba || fmt == format_bgra then 4 else 1

abbrev pub plane_width : ℕ → ℕ → ℕ → ℕ
plane_width fmt w pl = if ltb 0 pl && fmt == format_yuv420 then w / 2 else w

abbrev pub plane_height : ℕ → ℕ → ℕ → ℕ
plane_height fmt h pl =
    if ltb 0 pl && (fmt == format_nv12 || fmt == format_nv21 || fmt == format_yuv420)
    then h / 2
    else h

-- The loop over the planes: `k` are left, this one is `pl`, and `total` bytes are laid out. Sizes are
-- 32 bits wide.
unfoldable pub layout_from : ℕ → ℕ → ℕ → ℕ → ℕ → ℕ → List Plane × ℕ
layout_from fmt w h zero pl total = ([], total)
layout_from fmt w h (suc k) pl total =
    let pw = plane_width fmt w pl in
    let ph = plane_height fmt h pl in
    let size = (pw * ph * bpp fmt) % 2 ^ 32 in
    let (planes, all) = layout_from fmt w h k (pl + 1) ((total + size) % 2 ^ 32) in
    (
      record {
        width = pw;
        height = ph;
        pitch = (pw * bpp fmt) % 2 ^ 32;
        offset = total;
        psize = size;
        bytes_per_pix = bpp fmt;
      }
          ∷ planes,
      all,
    )

-- One surface of the batch, with its zeroed data.
unfoldable pub new_surface : CreateParams → ℕ → BufSurfaceParams
unfolding layout_from
new_surface c i =
    let (planes, all) =
      layout_from c.color_format c.width c.height (plane_count c.color_format) 0 0 in
    record {
      width = c.width;
      height = c.height;
      pitch = (c.width * bpp c.color_format) % 2 ^ 32;
      color_format = c.color_format;
      layout = c.layout;
      buffer_desc = 42 + i;
      data_size = all;
      data_ptr = replicate all 0;
      planes = planes;
      mapped = replicate max_planes none;
    }

-- Which calls of calloc give memory.
pub record Callocs : Type 0 where
  pub surface : Bool
  pub list : Bool
  pub data_ptr : ℕ → Bool

unfoldable pub fill_list : (ℕ → Bool) → CreateParams → ℕ → ℕ → Option (List BufSurfaceParams)
unfolding new_surface
fill_list room c zero i = some []
fill_list room c (suc k) i =
    let rest = fill_list room c k (i + 1) in
    if room i then elim rest [ none ↦ none | some l ↦ some (new_surface c i ∷ l) ] else none

-- NvBufSurfaceCreate: `none` is -1.
unfoldable pub buf_create : Callocs → ℕ → CreateParams → Option BufSurface
buf_create room n c =
    if room.surface && room.list
    then elim (fill_list room.data_ptr c n 0) [
      | none ↦ none
      | some l ↦
          some (record { batch_size = n; num_filled = n; mem_type = c.mem_type; surface_list = l })
    ]
    else none

-- `n` bytes from `o` on.
abbrev pub read_at : List ℕ → ℕ → ℕ → List ℕ
read_at xs o zero = []
read_at [] o (suc n) = []
read_at (x ∷ xs) zero (suc n) = x ∷ read_at xs zero n
read_at (x ∷ xs) (suc o) (suc n) = read_at xs o (suc n)

-- memcpy of `bytes` to `data + o`.
abbrev pub write_at : List ℕ → ℕ → List ℕ → List ℕ
write_at [] o bytes = []
write_at (x ∷ xs) zero [] = x ∷ xs
write_at (x ∷ xs) zero (b ∷ bytes) = b ∷ write_at xs zero bytes
write_at (x ∷ xs) (suc o) bytes = x ∷ write_at xs o bytes

abbrev pub plane_at : BufSurfaceParams → ℕ → Plane
plane_at p pl = get_or p.planes pl no_plane

abbrev pub plane_bytes : BufSurfaceParams → ℕ → List ℕ
plane_bytes p pl = read_at p.data_ptr (plane_at p pl).offset (plane_at p pl).psize

-- A plane is copied out; `room` is whether malloc gives memory.
unfoldable pub map_plane : Bool → ℕ → BufSurfaceParams → Bool × BufSurfaceParams
map_plane room pl p = elim (get_or p.mapped pl none) [
  | some bytes ↦ (true, p)
  | none ↦
      if room
      then (true, record p { mapped = set p.mapped pl (some (plane_bytes p pl)) })
      else (false, p)
]

unfoldable pub map_planes : (ℕ → Bool) → ℕ → ℕ → BufSurfaceParams → Bool × BufSurfaceParams
unfolding map_plane
map_planes room zero pl p = (true, p)
map_planes room (suc k) pl p =
    let (ok, p') = map_plane (room pl) pl p in
    let rest = map_planes room k (pl + 1) p' in if ok then rest else (false, p')

-- A plane is copied back and its copy freed.
unfoldable pub unmap_plane : ℕ → BufSurfaceParams → BufSurfaceParams
unmap_plane pl p = elim (get_or p.mapped pl none) [
  | none ↦ p
  | some bytes ↦ record p {
    data_ptr = write_at p.data_ptr (plane_at p pl).offset bytes;
    mapped = set p.mapped pl none;
  }
]

unfoldable pub unmap_planes : ℕ → ℕ → BufSurfaceParams → BufSurfaceParams
unfolding unmap_plane
unmap_planes zero pl p = p
unmap_planes (suc k) pl p = unmap_planes k (pl + 1) (unmap_plane pl p)
