-- ===== src/MaskBox/Tight.antt =====
-- gst/nvmmsamurai/samurai_seed_math.hpp: the box that mask_to_box finds.
use gst_nvmm_cpp.Common.{
  ℕ, zero, suc, ◌+◌, ◌-◌, ◌<◌, ◌≡◌, refl, subst, ◌⊎◌, inl, inr, Bool, true, false, ltb,
  if◌then◌else◌, arith, Bool-cases,
}
use gst_nvmm_cpp.Common.Float.{F32, FloatOps}
use gst_nvmm_cpp.MaskBox.{
  MaskBox, Extremes, visit, no_box, is_on, scan_row, scan_rows, box_of, mask_to_box,
}
use gst_nvmm_cpp.MaskBox.Known.{Bounds, Known, nobody, bounded, Known-same, With, visit-Known}

module _ (F : FloatOps) (mask : ℕ → F32) (w h : ℕ) (thresh : F32) where
  -- The pixels above the threshold that stand before column `c` of row `r`.
  abbrev Seen : ℕ → ℕ → ℕ → ℕ → Type 0
  Seen c r x y = (is_on F mask w thresh x y ≡ true) × (x < w) × ((y < r) ⊎ ((y ≡ r) × (x < c)))

  scan_row-Known :
      (r k c : ℕ) (e : Extremes)
      → r < h
      → c + k ≡ w
      → Known w h (Seen c r) e
      → Known w h (Seen w r) (scan_row F mask w thresh r k c e)
  unfolding scan_row
  scan_row-Known r zero c e lr q known =
      let same : c ≡ w = omega (arith, q) in subst (λ d. Known w h (Seen d r) e) same known
  scan_row-Known r (suc k) c e lr q known =
      scan_row-Known r k (c + 1) _ lr (omega (arith, q)) (by (is_on F mask w thresh c r) refl)
    where
      later : (x y : ℕ) → Seen c r x y → Seen (c + 1) r x y
      later x y (o, lx, inl p) = (o, lx, inl p)
      later x y (o, lx, inr (p, m)) = (o, lx, inr (p, omega (arith, m)))

      earlier : (x y : ℕ) → Seen (c + 1) r x y → With (Seen c r) c r x y
      earlier x y (o, lx, inl p) = inl (o, lx, inl p)
      earlier x y (o, lx, inr (p, m)) = elim (Bool-cases (ltb x c)) [
        | inl t ↦ inl (o, lx, inr (p, ground (arith, t)))
        | inr t ↦ inr (ground (arith, t, m), p)
      ]

      at :
          {b : Bool} (x y : ℕ)
          → x ≡ c
          → y ≡ r
          → is_on F mask w thresh c r ≡ b
          → is_on F mask w thresh x y ≡ b
      at x y p m o = rw (p, m) o

      by :
          (b : Bool)
          → is_on F mask w thresh c r ≡ b
          → Known w h (Seen (c + 1) r) (if b then visit c r e else e)
      by true o =
          Known-same w h (With (Seen c r) c r) (Seen (c + 1) r) (visit c r e) added earlier
            (visit-Known w h c r (Seen c r) e (omega (arith, q)) lr known)
        where
          added : (x y : ℕ) → With (Seen c r) c r x y → Seen (c + 1) r x y
          added x y (inl s) = later x y s
          added x y (inr (p, m)) = (at x y p m o, omega (arith, p, q), inr (m, omega (arith, p)))
      by false o = Known-same w h (Seen c r) (Seen (c + 1) r) e later back known
        where
          back : (x y : ℕ) → Seen (c + 1) r x y → Seen c r x y
          back x y s = elim (earlier x y s) [
            | inl t ↦ t
            | inr (p, m) ↦ absurd (cc (at x y p m o, s.0))
          ]

  scan_rows-Known :
      (k r : ℕ) (e : Extremes)
      → r + k ≡ h
      → Known w h (Seen 0 r) e
      → Known w h (Seen 0 h) (scan_rows F mask w thresh k r e)
  unfolding scan_rows
  scan_rows-Known zero r e q known =
      let same : r ≡ h = omega (arith, q) in subst (λ d. Known w h (Seen 0 d) e) same known
  scan_rows-Known (suc k) r e q known = scan_rows-Known k (r + 1) _ (omega (arith, q)) (
      Known-same w h (Seen w r) (Seen 0 (r + 1)) _ down up
        (scan_row-Known r w 0 e (omega (arith, q)) (omega arith) known))
    where
      down : (x y : ℕ) → Seen w r x y → Seen 0 (r + 1) x y
      down x y (o, lx, inl p) = (o, lx, inl (omega (arith, p)))
      down x y (o, lx, inr (p, m)) = (o, lx, inl (omega (arith, p)))

      up : (x y : ℕ) → Seen 0 (r + 1) x y → Seen w r x y
      up x y (o, lx, inr (p, m)) = absurd (omega (arith, m))
      up x y (o, lx, inl p) = elim (Bool-cases (ltb y r)) [
        | inl t ↦ (o, lx, inl (ground (arith, t)))
        | inr t ↦ (o, lx, inr (ground (arith, t, p), lx))
      ]

  -- A pixel of the mask above the threshold.
  abbrev pub On : ℕ → ℕ → Type 0
  On x y = (is_on F mask w thresh x y ≡ true) × (x < w) × (y < h)

  -- The box, by the bounds of a set of pixels, or none.
  pub data Tight (P : ℕ → ℕ → Type 0) : MaskBox → Type 0 where
    empty : ((x y : ℕ) → P x y → ⊥) → Tight P no_box
    tight :
        (xmin ymin xmax ymax : ℕ)
        → Bounds P xmin ymin xmax ymax
        → Tight P (record {
          x = F.of_int xmin;
          y = F.of_int ymin;
          w = F.of_int (xmax - xmin);
          h = F.of_int (ymax - ymin);
          valid = true;
        })

  box_of-Tight : (P : ℕ → ℕ → Type 0) (e : Extremes) → Known w h P e → Tight P (box_of F e)
  unfolding box_of
  box_of-Tight P e (nobody n) = empty n
  box_of-Tight P e (bounded xmin ymin xmax ymax k) = tight xmin ymin xmax ymax k

  -- The box of a mask is the tightest around its pixels above the threshold: all of them lie in it, and
  -- each of its four sides meets one. The box is not valid just where no pixel is above the threshold.
  pub mask_to_box-Tight : Tight On (mask_to_box F mask h w thresh)
  unfolding mask_to_box
  mask_to_box-Tight = box_of-Tight On _ (
      Known-same w h (Seen 0 h) On _ all_seen seen_all
        (scan_rows-Known h 0 _ (omega arith) (nobody none_yet)))
    where
      none_yet : (x y : ℕ) → Seen 0 0 x y → ⊥
      none_yet x y (o, lx, inl p) = omega (arith, p)
      none_yet x y (o, lx, inr (p, m)) = omega (arith, m)

      all_seen : (x y : ℕ) → Seen 0 h x y → On x y
      all_seen x y (o, lx, inl p) = (o, lx, p)
      all_seen x y (o, lx, inr (p, m)) = absurd (omega (arith, m))

      seen_all : (x y : ℕ) → On x y → Seen 0 h x y
      seen_all x y (o, lx, ly) = (o, lx, inl ly)
