-- ===== src/Tests/Surfaces.antt =====
-- gst/common/nvbufsurface_mock.h and gst/common/nvmm_buffer.cpp at concrete inputs.
use gst_nvmm_cpp.Common.{
  List, ℕ, ◌<◌, ◌≡◌, ◌≢◌, refl, sym, [], ◌∷◌, none, some, true, get_or, length, arith,
}
use gst_nvmm_cpp.Surface.Mock.{
  BufSurfaceParams, CreateParams, Callocs, new_surface, layout_from, plane_count, plane_at,
  plane_bytes, map_plane, unmap_plane, format_nv12,
}
use gst_nvmm_cpp.Surface.Layout.{IsLaidOut, new_surface-IsLaidOut}
use gst_nvmm_cpp.Surface.Mapping.{written, unmap_plane-map_plane}
use gst_nvmm_cpp.Surface.Types.{ok, SurfaceParams, to_nv_format, k_nv12, k_surface_array}
use gst_nvmm_cpp.Surface.Buffer.{
  move_assign, NvmmBuffer, Owned, owner_of, destroy, create, first, export_fd, width, height,
  format, mem_type, num_planes,
}
use gst_nvmm_cpp.Surface.Transform.{scale}
use gst_nvmm_cpp.Surface.Scale.{stand_in, scale-copies}
use gst_nvmm_cpp.Surface.Owners.{create_lem}
use gst_nvmm_cpp.Surface.Program.{
  Program, Op, creates, assigns, destroys, run, run_op, owners, count, Balanced, run-Balanced,
}
use gst_nvmm_cpp.Surface.Mock.{BufSurface}

-- 4 by 2 pixels: eight bytes of luma, four of chroma.
abbrev small : CreateParams
small = record { width = 4; height = 2; color_format = format_nv12; layout = 0; mem_type = 4 }

abbrev picture : BufSurfaceParams
picture = new_surface small 0

new_surface-IsLaidOut_example :
    IsLaidOut (new_surface small 0)
    × (length (new_surface small 0).planes ≡ plane_count format_nv12)
new_surface-IsLaidOut_example = new_surface-IsLaidOut small 0 (omega arith)

two_planes : length picture.planes ≡ 2
unfolding new_surface layout_from
two_planes = refl

chroma_bytes : (plane_at picture 1).psize ≡ 4
unfolding new_surface layout_from
chroma_bytes = refl

unmapped : get_or picture.mapped 1 none ≡ none
unfolding new_surface
unmapped = refl

unmap_plane-map_plane_example :
    let (ok', mapped) = map_plane true 1 picture in
    let after = unmap_plane 1 (written 1 (9 ∷ 8 ∷ 7 ∷ 6 ∷ []) mapped) in
    (ok' ≡ true)
    × (get_or mapped.mapped 1 none ≡ some (plane_bytes picture 1))
    × (plane_bytes after 1 ≡ 9 ∷ 8 ∷ 7 ∷ 6 ∷ [])
    × ((q : ℕ) → q < length picture.planes → q ≢ 1 → plane_bytes after q ≡ plane_bytes picture q)
    × (get_or after.mapped 1 none ≡ none)
    × IsLaidOut after
unmap_plane-map_plane_example =
    unmap_plane-map_plane picture 1 (9 ∷ 8 ∷ 7 ∷ 6 ∷ [])
      (new_surface-IsLaidOut small 0 (omega arith)).0 (omega (arith, two_planes)) unmapped
      (sym chroma_bytes)

abbrev memory : Callocs
memory = record { surface = true; list = true; data_ptr = λ j. true }

abbrev wanted : SurfaceParams
wanted = record {
  width = 4;
  height = 2;
  color_format = k_nv12;
  mem_type = k_surface_array;
  num_surfaces = 1;
}

create_lem_run :
    (b : NvmmBuffer) × (o : Owned) × (create memory 7 wanted [] ≡ (ok b, 7 ∷ []))
    × (b ≡ owner_of (some o))
    × IsLaidOut (first o)
    × (o.buf.num_filled ≡ 1)
    × (width b ≡ 4)
    × (height b ≡ 2)
    × (format b ≡ k_nv12)
    × (mem_type b ≡ k_surface_array)
    × (num_planes b ≡ plane_count (to_nv_format k_nv12))
    × (export_fd b ≡ ok 42)
    × (destroy b (7 ∷ []) ≡ [])
create_lem_run =
    create_lem memory 7 wanted [] refl refl (λ j. refl) (omega arith) (omega arith) (omega arith)
      (omega arith)

abbrev nothing : Program
nothing = record { vars = []; live = [] }

abbrev empty_surface : BufSurface
empty_surface = record { batch_size = 0; num_filled = 0; mem_type = 0; surface_list = [] }

abbrev four_ops : List Op
four_ops =
    creates (record { handle = 7; buf = empty_surface })
    ∷ creates (record { handle = 8; buf = empty_surface })
    ∷ assigns 0 1
    ∷ destroys 0
    ∷ []

run-Balanced_example :
    Balanced (run four_ops nothing)
    × ((h : ℕ) → owners h (run four_ops nothing).vars ≡ 0 → count h (run four_ops nothing).live ≡ 0)
run-Balanced_example = run-Balanced four_ops nothing (λ h. refl)

-- The assignment destroyed the one surface and the destruction the other.
none_left : (run four_ops nothing).live ≡ []
unfolding run run_op move_assign
none_left = refl

abbrev left_owned : Owned
left_owned = record {
  handle = 7;
  buf = record { batch_size = 1; num_filled = 1; mem_type = 4; surface_list = picture ∷ [] };
}

abbrev right_owned : Owned
right_owned = record left_owned { handle = 8 }

scale-copies_run :
    let (r, dst', session') =
      scale stand_in (owner_of (some left_owned)) (owner_of (some right_owned)) 0 in
    (r ≡ ok tt)
    × (session' ≡ 0)
    × (o : Owned) × (dst'.surface ≡ some o)
    × (o.handle ≡ 8)
    × ((first o).data_ptr ≡ (first left_owned).data_ptr)
    × ((first o).planes ≡ (first right_owned).planes)
scale-copies_run =
    scale-copies (owner_of (some left_owned)) (owner_of (some right_owned)) left_owned right_owned 0
      refl refl refl refl (omega arith) (new_surface-IsLaidOut small 0 (omega arith)).0
      (new_surface-IsLaidOut small 0 (omega arith)).0 refl
