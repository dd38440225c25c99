-- ===== src/Surface/Owners.antt =====
-- What a new buffer says of itself (gst/common/nvmm_buffer.cpp).
use gst_nvmm_cpp.Common.{
  ℕ, zero, suc, ◌+◌, ◌*◌, ◌<◌, ◌≡◌, refl, ◌∙◌, List, [], ◌∷◌, some, Bool, true, ◌^◌, arith, length,
}
use gst_nvmm_cpp.Ipc.Os.{erase-cons_self}
use gst_nvmm_cpp.Surface.Mock.{
  BufSurface, BufSurfaceParams, CreateParams, Callocs, buf_create, fill_list, new_surface,
  plane_count,
}
use gst_nvmm_cpp.Surface.Layout.{IsLaidOut, new_surface-IsLaidOut}
use gst_nvmm_cpp.Surface.Types.{
  ok, ColorFormat, k_nv12, k_rgba, k_bgra, k_i420, k_nv21, k_gray8, MemoryType, k_default,
  k_cuda_device, k_cuda_pinned, k_cuda_unified, k_surface_array, k_handle, k_system_heap,
  SurfaceParams, to_nv_format, from_nv_format, to_nv_memtype, from_nv_memtype,
}
use gst_nvmm_cpp.Surface.Buffer.{
  NvmmBuffer, Owned, owner_of, destroy, create, first, export_fd, width, height, format, mem_type,
  num_planes,
}

from_to_format : (f : ColorFormat) → from_nv_format (to_nv_format f) ≡ f
unfolding from_nv_format to_nv_format
from_to_format k_nv12 = refl
from_to_format k_rgba = refl
from_to_format k_bgra = refl
from_to_format k_i420 = refl
from_to_format k_nv21 = refl
from_to_format k_gray8 = refl

from_to_memtype : (t : MemoryType) → from_nv_memtype (to_nv_memtype t) ≡ t
unfolding from_nv_memtype to_nv_memtype
from_to_memtype k_default = refl
from_to_memtype k_cuda_device = refl
from_to_memtype k_cuda_pinned = refl
from_to_memtype k_cuda_unified = refl
from_to_memtype k_surface_array = refl
from_to_memtype k_handle = refl
from_to_memtype k_system_heap = refl

-- The parameters that create hands to NvBufSurfaceCreate.
abbrev pub create_params : SurfaceParams → CreateParams
create_params params = record {
  width = params.width;
  height = params.height;
  color_format = to_nv_format params.color_format;
  layout = 0;
  mem_type = to_nv_memtype params.mem_type;
}

fill_list-all :
    (room : ℕ → Bool) (c : CreateParams) (k i : ℕ)
    → ((j : ℕ) → room j ≡ true)
    → (l : List BufSurfaceParams) × (fill_list room c (suc k) i ≡ some (new_surface c i ∷ l))
unfolding fill_list
fill_list-all room c zero i h = ([], ground (arith, h i))
fill_list-all room c (suc k) i h =
    let (l, e) = fill_list-all room c k (i + 1) h in
    (new_surface c (i + 1) ∷ l, ground (arith, h i, e))

abbrev made_from : SurfaceParams → List BufSurfaceParams → BufSurface
made_from params l = record {
  batch_size = params.num_surfaces;
  num_filled = params.num_surfaces;
  mem_type = to_nv_memtype params.mem_type;
  surface_list = new_surface (create_params params) 0 ∷ l;
}

buf_create-made :
    (room : Callocs) (params : SurfaceParams)
    → room.surface ≡ true
    → room.list ≡ true
    → ((j : ℕ) → room.data_ptr j ≡ true)
    → 0 < params.num_surfaces
    → (l : List BufSurfaceParams) × (buf_create room params.num_surfaces (create_params params)
        ≡ some (made_from params l))
unfolding buf_create
buf_create-made room params s l d n = made params.num_surfaces n
  where
    made :
        (k : ℕ)
        → 0 < k
        → (l' : List BufSurfaceParams) × (buf_create room k (create_params params)
            ≡ some (made_from (record params { num_surfaces = k }) l'))
    made zero h = absurd (omega arith)
    made (suc k) h =
        let (l', e) = fill_list-all room.data_ptr (create_params params) k 0 d in
        (l', ground (arith, s, l, e))

create_made :
    (room : Callocs) (handle : ℕ) (params : SurfaceParams) (live : List ℕ) (s : BufSurface)
    → 0 < params.width
    → 0 < params.height
    → buf_create room params.num_surfaces (create_params params) ≡ some s
    → create room handle params live ≡ (
      ok (
          owner_of
            (some (record { handle = handle; buf = record s { num_filled = s.batch_size } }))),
      handle ∷ live,
    )
unfolding create
create_made room handle params live s w h e = ground (arith, e)

-- A surface that create makes answers what it was asked for.
answers :
    (handle : ℕ) (params : SurfaceParams) (l : List BufSurfaceParams)
    → let b = owner_of (some (record { handle = handle; buf = made_from params l })) in
      (width b ≡ params.width)
      × (height b ≡ params.height)
      × (format b ≡ params.color_format)
      × (mem_type b ≡ params.mem_type)
      × (export_fd b ≡ ok 42)
unfolding width height format mem_type export_fd new_surface
answers handle params l =
    (refl, refl, from_to_format params.color_format, from_to_memtype params.mem_type, refl)

planes_answer :
    (handle : ℕ) (params : SurfaceParams) (l : List BufSurfaceParams)
    → num_planes (owner_of (some (record { handle = handle; buf = made_from params l })))
      ≡ length (new_surface (create_params params) 0).planes
unfolding num_planes
planes_answer handle params l = refl

-- A buffer with no side of length zero, and one surface at least, is created when there is memory: its
-- surface exists, it is not mapped, it has the size, format and memory type that were asked for, its
-- planes tile its data and its descriptor is 42.
pub create_lem :
    (room : Callocs) (handle : ℕ) (params : SurfaceParams) (live : List ℕ)
    → room.surface ≡ true
    → room.list ≡ true
    → ((j : ℕ) → room.data_ptr j ≡ true)
    → 0 < params.width
    → 0 < params.height
    → 0 < params.num_surfaces
    → 4 * (params.width * params.height) < 2 ^ 32
    → (b : NvmmBuffer) × (o : Owned) × (create room handle params live ≡ (ok b, handle ∷ live))
      × (b ≡ owner_of (some o))
      × IsLaidOut (first o)
      × (o.buf.num_filled ≡ params.num_surfaces)
      × (width b ≡ params.width)
      × (height b ≡ params.height)
      × (format b ≡ params.color_format)
      × (mem_type b ≡ params.mem_type)
      × (num_planes b ≡ plane_count (to_nv_format params.color_format))
      × (export_fd b ≡ ok 42)
      × (destroy b (handle ∷ live) ≡ live)
create_lem room handle params live s l d w h n fits =
    let (rest, e) = buf_create-made room params s l d n in
    let laid = new_surface-IsLaidOut (create_params params) 0 fits in
    let a = answers handle params rest in
    (
      owner_of (some (record { handle = handle; buf = made_from params rest })),
      record { handle = handle; buf = made_from params rest },
      create_made room handle params live (made_from params rest) w h e,
      refl,
      laid.0,
      refl,
      a.0,
      a.1,
      a.2,
      a.3,
      planes_answer handle params rest ∙ laid.1,
      a.4,
      erase-cons_self handle live,
    )
