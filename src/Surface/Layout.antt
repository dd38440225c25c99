-- ===== src/Surface/Layout.antt =====
-- The planes of a new surface (gst/common/nvbufsurface_mock.h, NvBufSurfaceCreate).
use native.Mathlib.Nat.{mul-le-mul, mod-eq_of_lt}
use gst_nvmm_cpp.Common.{
  ℕ, zero, suc, ◌+◌, ◌*◌, ◌%◌, ◌^◌, ◌≤◌, ◌<◌, ◌≡◌, refl, sym, subst, ◌∙◌, ap, List, [], ◌∷◌, Option,
  none, ◌⊎◌, length, length-replicate, arith,
}
use gst_nvmm_cpp.Surface.Mock.{
  Plane, BufSurfaceParams, CreateParams, plane_count, bpp, plane_width, plane_height, layout_from,
  new_surface, max_planes,
}

-- The planes lie one after the other from `o` on, and end at `all`; each has its rows' bytes.
abbrev pub Tiles : ℕ → List Plane → ℕ → Type 0
Tiles o [] all = o ≡ all
Tiles o (p ∷ ps) all = (p.offset ≡ o) × (p.psize ≡ p.pitch * p.height) × Tiles (o + p.psize) ps all

-- Between two calls: the planes tile the data, and there is an address for each.
pub record IsLaidOut (p : BufSurfaceParams) : Type 0 where
  pub tiles : Tiles 0 p.planes p.data_size
  pub room : length p.data_ptr ≡ p.data_size
  pub few : length p.planes ≤ max_planes
  pub addresses : length p.mapped ≡ max_planes

bpp_cases : (fmt : ℕ) → (bpp fmt ≡ 1) ⊎ (bpp fmt ≡ 4)
bpp_cases fmt = ground arith

plane_width-le : (fmt w pl : ℕ) → plane_width fmt w pl ≤ w
plane_width-le fmt w pl = ground arith

plane_height-le : (fmt h pl : ℕ) → plane_height fmt h pl ≤ h
plane_height-le fmt h pl = ground arith

-- The bytes of a plane, without the wrap-around.
abbrev plane_size : ℕ → ℕ → ℕ → ℕ → ℕ
plane_size fmt w h pl = plane_width fmt w pl * plane_height fmt h pl * bpp fmt

plane_size-le : (fmt w h pl : ℕ) → plane_size fmt w h pl ≤ w * h * bpp fmt
plane_size-le fmt w h pl =
    mul-le-mul (mul-le-mul (plane_width-le fmt w pl) (plane_height-le fmt h pl)) (omega arith)

rows_size : (w h b : ℕ) → w * h * b < 2 ^ 32 → (w * h * b) % 2 ^ 32 ≡ (w * b) % 2 ^ 32 * h
rows_size w zero b h = ground arith
rows_size w (suc n) b h =
    mod-eq_of_lt h
    ∙ (swap
        ∙ ap (λ x. x * suc n) {x = w * b} {y = (w * b) % 2 ^ 32}
            (sym (mod-eq_of_lt (omega (arith, h, swap, more)))))
  where
    swap : w * suc n * b ≡ w * b * suc n
    swap = omega arith

    more : w * b ≤ w * b * suc n
    more = omega arith

layout_from-Tiles :
    (fmt w h k pl total : ℕ)
    → total + k * (w * h * bpp fmt) < 2 ^ 32
    → let (planes, all) = layout_from fmt w h k pl total in
      Tiles total planes all × (all ≤ total + k * (w * h * bpp fmt)) × (length planes ≡ k)
unfolding layout_from
layout_from-Tiles fmt w h zero pl total s = (refl, omega arith, refl)
layout_from-Tiles fmt w h (suc k) pl total s =
    let ih =
      layout_from-Tiles fmt w h k (pl + 1) ((total + size) % 2 ^ 32)
        (omega (arith, s, same, below)) in
    (
      (
        refl,
        rows_size (plane_width fmt w pl) (plane_height fmt h pl) (bpp fmt) (omega (arith, s, fits)),
        subst (λ x. Tiles x rest.0 rest.1) same ih.0,
      ),
      omega (arith, ih.1, same, below),
      ap suc ih.2,
    )
  where
    size : ℕ
    size = plane_size fmt w h pl % 2 ^ 32

    fits : plane_size fmt w h pl ≤ w * h * bpp fmt
    fits = plane_size-le fmt w h pl

    exact : plane_size fmt w h pl % 2 ^ 32 ≡ plane_size fmt w h pl
    exact = mod-eq_of_lt (omega (arith, s, fits))

    below : size ≤ w * h * bpp fmt
    below = omega (arith, exact, fits)

    same : (total + size) % 2 ^ 32 ≡ total + size
    same = mod-eq_of_lt (omega (arith, s, below))

    rest : List Plane × ℕ
    rest = layout_from fmt w h k (pl + 1) ((total + size) % 2 ^ 32)

plane_bytes_bound : (fmt w h : ℕ) → plane_count fmt * (w * h * bpp fmt) ≤ 4 * (w * h)
plane_bytes_bound fmt w h = ground arith

plane_count-le : (fmt : ℕ) → plane_count fmt ≤ max_planes
plane_count-le fmt = ground arith

-- The planes of a new surface lie one after the other and fill its data, and each has the bytes of
-- its rows, as long as four bytes a pixel fit in 32 bits.
pub new_surface-IsLaidOut :
    (c : CreateParams) (i : ℕ)
    → 4 * (c.width * c.height) < 2 ^ 32
    → IsLaidOut (new_surface c i) × (length (new_surface c i).planes ≡ plane_count c.color_format)
unfolding new_surface
new_surface-IsLaidOut c i h = (
  record {
    tiles = t.0;
    room = length-replicate _ 0;
    few = omega (arith, t.2, plane_count-le c.color_format);
    addresses = length-replicate {A = Option (List ℕ)} max_planes none;
  },
  t.2,
)
  where
    t :
        let (planes, all) =
          layout_from c.color_format c.width c.height (plane_count c.color_format) 0 0 in
        Tiles 0 planes all
        × (all ≤ 0 + plane_count c.color_format * (c.width * c.height * bpp c.color_format))
        × (length planes ≡ plane_count c.color_format)
    t =
        layout_from-Tiles c.color_format c.width c.height (plane_count c.color_format) 0 0
          (omega (arith, h, plane_bytes_bound c.color_format c.width c.height))
