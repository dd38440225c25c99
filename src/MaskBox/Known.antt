-- ===== src/MaskBox/Known.antt =====
-- gst/nvmmsamurai/samurai_seed_math.hpp: the bounds of the pixels that the loops have seen.
use gst_nvmm_cpp.Common.{
  ℕ, ◌≤◌, ◌<◌, ◌≡◌, refl, sym, subst, ◌⊎◌, inl, inr, none, some, ltb, if◌then◌else◌, arith,
  Bool-cases,
}
use gst_nvmm_cpp.MaskBox.{Extremes, at_least, at_most, visit}

-- The four bounds of a set of pixels: they hold, and each is met.
pub record Bounds (On : ℕ → ℕ → Type 0) (xmin ymin xmax ymax : ℕ) : Type 0 where
  pub all : (x y : ℕ) → On x y → (xmin ≤ x) × (x ≤ xmax) × (ymin ≤ y) × (y ≤ ymax)
  pub left : (y : ℕ) × On xmin y
  pub right : (y : ℕ) × On xmax y
  pub top : (x : ℕ) × On x ymin
  pub bottom : (x : ℕ) × On x ymax

-- What the loops know of the pixels that they have seen.
pub data Known (w h : ℕ) (On : ℕ → ℕ → Type 0) : Extremes → Type 0 where
  nobody :
      ((x y : ℕ) → On x y → ⊥)
      → Known w h On (record { xmin = w; ymin = h; xmax = none; ymax = none })
  bounded :
      (xmin ymin xmax ymax : ℕ)
      → Bounds On xmin ymin xmax ymax
      → Known w h On (record { xmin = xmin; ymin = ymin; xmax = some xmax; ymax = some ymax })

pub Known-same :
    (w h : ℕ) (On On' : ℕ → ℕ → Type 0) (e : Extremes)
    → ((x y : ℕ) → On x y → On' x y)
    → ((x y : ℕ) → On' x y → On x y)
    → Known w h On e
    → Known w h On' e
Known-same w h On On' e f g (nobody n) = nobody (λ x y o. n x y (g x y o))
Known-same w h On On' e f g (bounded xmin ymin xmax ymax k) = bounded xmin ymin xmax ymax (record {
  all = λ x y o. k.all x y (g x y o);
  left = (k.left.0, f _ _ k.left.1);
  right = (k.right.0, f _ _ k.right.1);
  top = (k.top.0, f _ _ k.top.1);
  bottom = (k.bottom.0, f _ _ k.bottom.1);
})

-- The larger of two, as `at_least` takes it.
abbrev upper : ℕ → ℕ → ℕ
upper a b = if ltb b a then a else b

at_least-some : (a b : ℕ) → at_least a (some b) ≡ some (upper a b)
at_least-some a b = ground arith

upper-bound : (a b : ℕ) → (a ≤ upper a b) × (b ≤ upper a b) × ((upper a b ≡ a) ⊎ (upper a b ≡ b))
upper-bound a b = elim (Bool-cases (ltb b a)) [
  | inl e ↦ rw e (omega arith, ground (arith, e), inl refl)
  | inr e ↦ rw e (ground (arith, e), omega arith, inr refl)
]

lower-bound :
    (a b : ℕ) → (at_most a b ≤ a) × (at_most a b ≤ b) × ((at_most a b ≡ a) ⊎ (at_most a b ≡ b))
lower-bound a b = elim (Bool-cases (ltb a b)) [
  | inl e ↦ rw e (omega arith, ground (arith, e), inl refl)
  | inr e ↦ rw e (ground (arith, e), omega arith, inr refl)
]

at_most-small : (a b : ℕ) → a < b → at_most a b ≡ a
at_most-small a b h = ground (arith, h)

-- One pixel more.
abbrev pub With : (ℕ → ℕ → Type 0) → ℕ → ℕ → ℕ → ℕ → Type 0
With On a b x y = On x y ⊎ ((x ≡ a) × (y ≡ b))

-- One of two candidates for a side is met.
side : (P : ℕ → Type 0) (m a b : ℕ) → (m ≡ a) ⊎ (m ≡ b) → P a → P b → P m
side P m a b (inl e) p q = subst P (sym e) p
side P m a b (inr e) p q = subst P (sym e) q

pub visit-Known :
    (w h a b : ℕ) (On : ℕ → ℕ → Type 0) (e : Extremes)
    → a < w
    → b < h
    → Known w h On e
    → Known w h (With On a b) (visit a b e)
unfolding visit
visit-Known w h a b On e la lb (nobody n) =
    rw (at_most-small a w la, at_most-small b h lb)
      (bounded a b a b (record {
        all = λ x y o. first x y o;
        left = (b, inr (refl, refl));
        right = (b, inr (refl, refl));
        top = (a, inr (refl, refl));
        bottom = (a, inr (refl, refl));
      }))
  where
    first : (x y : ℕ) → With On a b x y → (a ≤ x) × (x ≤ a) × (b ≤ y) × (y ≤ b)
    first x y (inl o) = absurd (n x y o)
    first x y (inr (p, q)) =
        (omega (arith, p), omega (arith, p), omega (arith, q), omega (arith, q))
visit-Known w h a b On e la lb (bounded xmin ymin xmax ymax k) =
    rw (at_least-some a xmax, at_least-some b ymax)
      (bounded (at_most a xmin) (at_most b ymin) (upper a xmax) (upper b ymax) (record {
        all = wider;
        left =
            side (λ m. (y : ℕ) × With On a b m y) _ a xmin (lower-bound a xmin).2
              (b, inr (refl, refl)) (k.left.0, inl k.left.1);
        right =
            side (λ m. (y : ℕ) × With On a b m y) _ a xmax (upper-bound a xmax).2
              (b, inr (refl, refl)) (k.right.0, inl k.right.1);
        top =
            side (λ m. (x : ℕ) × With On a b x m) _ b ymin (lower-bound b ymin).2
              (a, inr (refl, refl)) (k.top.0, inl k.top.1);
        bottom =
            side (λ m. (x : ℕ) × With On a b x m) _ b ymax (upper-bound b ymax).2
              (a, inr (refl, refl)) (k.bottom.0, inl k.bottom.1);
      }))
  where
    wider :
        (x y : ℕ)
        → With On a b x y
        → (at_most a xmin ≤ x) × (x ≤ upper a xmax) × (at_most b ymin ≤ y) × (y ≤ upper b ymax)
    wider x y (inl o) =
        let f = k.all x y o in
        (
          omega (arith, f.0, (lower-bound a xmin).1),
          omega (arith, f.1, (upper-bound a xmax).1),
          omega (arith, f.2, (lower-bound b ymin).1),
          omega (arith, f.3, (upper-bound b ymax).1),
        )
    wider x y (inr (p, q)) = (
      omega (arith, p, (lower-bound a xmin).0),
      omega (arith, p, (upper-bound a xmax).0),
      omega (arith, q, (lower-bound b ymin).0),
      omega (arith, q, (upper-bound b ymax).0),
    )
