-- ===== src/MaskBox.antt =====
-- gst/nvmmsamurai/samurai_seed_math.hpp: the bounding box of a mask (mask_to_box). Sizes are not negative.
pub mod Known
pub mod Tight
pub mod Upsample
use gst_nvmm_cpp.Common.{
  ℕ, zero, suc, ◌+◌, ◌-◌, ◌*◌, Option, none, some, Bool, true, false, ltb, if◌then◌else◌,
}
use gst_nvmm_cpp.Common.Float.{F32, FloatOps}

pub record MaskBox : Type 0 where
  pub x : F32
  pub y : F32
  pub w : F32
  pub h : F32
  pub valid : Bool

-- `none` is -1.
pub record Extremes : Type 0 where
  pub xmin : ℕ
  pub ymin : ℕ
  pub xmax : Option ℕ
  pub ymax : Option ℕ

abbrev pub at_least : ℕ → Option ℕ → Option ℕ
at_least a none = some a
at_least a (some b) = if ltb b a then some a else some b

abbrev pub at_most : ℕ → ℕ → ℕ
at_most a b = if ltb a b then a else b

-- A pixel above the threshold.
unfoldable pub visit : ℕ → ℕ → Extremes → Extremes
visit x y e = record {
  xmin = at_most x e.xmin;
  ymin = at_most y e.ymin;
  xmax = at_least x e.xmax;
  ymax = at_least y e.ymax;
}

abbrev pub no_box : MaskBox
no_box = record { x = 0; y = 0; w = 0; h = 0; valid = false }

module _ (F : FloatOps) where
  abbrev pub is_on : (ℕ → F32) → ℕ → F32 → ℕ → ℕ → Bool
  is_on mask w thresh x y = F.lt thresh (mask (y * w + x))

  -- A row from `x` on, of which `k` pixels are left.
  unfoldable pub scan_row : (ℕ → F32) → ℕ → F32 → ℕ → ℕ → ℕ → Extremes → Extremes
  scan_row mask w thresh y zero x e = e
  scan_row mask w thresh y (suc k) x e =
      scan_row mask w thresh y k (x + 1) (if is_on mask w thresh x y then visit x y e else e)

  -- The rows from `y` on, of which `k` are left.
  unfoldable pub scan_rows : (ℕ → F32) → ℕ → F32 → ℕ → ℕ → Extremes → Extremes
  scan_rows mask w thresh zero y e = e
  scan_rows mask w thresh (suc k) y e =
      scan_rows mask w thresh k (y + 1) (scan_row mask w thresh y w 0 e)

  unfoldable pub box_of : Extremes → MaskBox
  box_of e = elim e.xmax [
    | none ↦ no_box
    | some xmax ↦ elim e.ymax [
      | none ↦ no_box
      | some ymax ↦ record {
        x = F.of_int e.xmin;
        y = F.of_int e.ymin;
        w = F.of_int (xmax - e.xmin);
        h = F.of_int (ymax - e.ymin);
        valid = true;
      }
    ]
  ]

  unfoldable pub mask_to_box : (ℕ → F32) → ℕ → ℕ → F32 → MaskBox
  mask_to_box mask h w thresh =
      box_of (scan_rows mask w thresh h 0 (record { xmin = w; ymin = h; xmax = none; ymax = none }))
