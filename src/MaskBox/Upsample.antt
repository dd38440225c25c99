-- ===== src/MaskBox/Upsample.antt =====
-- gst/nvmmsamurai/samurai_seed_math.hpp: bilinear_upsample and mlp3_relu. Sizes are positive.
use gst_nvmm_cpp.Common.{
  ℕ, zero, suc, ◌+◌, ◌-◌, ◌*◌, ◌≤◌, ◌<◌, ◌≡◌, refl, ◌∙◌, List, [], ◌∷◌, Bool, true, false, ◌&&◌,
  ltb, if◌then◌else◌, get_or, set, length, replicate, length-set, get_or-set_self, get_or-set_ne,
  arith, ◌⊎◌, inl, inr, subst, Bool-cases, length-replicate,
}
use gst_nvmm_cpp.Common.Float.{F32, FloatOps}

-- The vector of the first `n` values.
abbrev table_from : (ℕ → F32) → ℕ → ℕ → List F32
table_from x i zero = []
table_from x i (suc k) = x i ∷ table_from x (i + 1) k

abbrev table : (ℕ → F32) → ℕ → List F32
table x n = table_from x 0 n

-- The loop that stores `val y x` at y * w + x, on a row from `x` on, of which `k` places are left.
unfoldable pub fill_row : (ℕ → ℕ → F32) → ℕ → ℕ → ℕ → ℕ → List F32 → List F32
fill_row val w y zero x dst = dst
fill_row val w y (suc k) x dst = fill_row val w y k (x + 1) (set dst (y * w + x) (val y x))

unfoldable pub fill_rows : (ℕ → ℕ → F32) → ℕ → ℕ → ℕ → List F32 → List F32
fill_rows val w zero y dst = dst
fill_rows val w (suc k) y dst = fill_rows val w k (y + 1) (fill_row val w y w 0 dst)

module _ (F : FloatOps) (truncated : F32 → ℕ) where
  abbrev half : F32
  half = 0x3F000000

  -- The two source places around an output place, and the weight of the second.
  unfoldable pub neighbours : F32 → ℕ → ℕ → ℕ × ℕ × F32
  neighbours scale n o =
      let f = F.sub (F.mul (F.add (F.of_int o) half) scale) half in
      let f' = if F.lt f 0 then 0 else f in
      let i = truncated f' in (i, (if ltb (i + 1) n then i + 1 else n - 1), F.sub f' (F.of_int i))

  abbrev blend : F32 → F32 → F32 → F32
  blend a b w = F.add a (F.mul (F.sub b a) w)

  unfoldable pub pixel : (ℕ → F32) → ℕ → ℕ → ℕ → ℕ → ℕ → ℕ → F32
  pixel src hi wi ho wo oy ox =
      let (y0, y1, wy) = neighbours (F.div (F.of_int hi) (F.of_int ho)) hi oy in
      let (x0, x1, wx) = neighbours (F.div (F.of_int wi) (F.of_int wo)) wi ox in
      let top = blend (src (y0 * wi + x0)) (src (y0 * wi + x1)) wx in
      let bot = blend (src (y1 * wi + x0)) (src (y1 * wi + x1)) wx in blend top bot wy

  unfoldable pub bilinear_upsample : (ℕ → F32) → ℕ → ℕ → ℕ → ℕ → List F32
  bilinear_upsample src hi wi ho wo =
      fill_rows (pixel src hi wi ho wo) wo ho 0 (replicate (ho * wo) 0)

module _ (F : FloatOps) where
  -- acc += wr[i] * in[i], for the `k` items from `i` on.
  unfoldable pub accumulate : (ℕ → F32) → (ℕ → F32) → ℕ → ℕ → F32 → F32
  accumulate wr input zero i acc = acc
  accumulate wr input (suc k) i acc =
      accumulate wr input k (i + 1) (F.add acc (F.mul (wr i) (input i)))

  unfoldable pub output : ℕ → (ℕ → F32) → (ℕ → F32) → Bool → List F32 → ℕ → F32
  output dim weights bias relu input o =
      let acc = accumulate (λ i. weights (o * dim + i)) (λ i. get_or input i 0) dim 0 (bias o) in
      if relu && F.lt acc 0 then 0 else acc

  -- A layer, as one row of `dim` places.
  unfoldable pub layer : ℕ → (ℕ → F32) → (ℕ → F32) → Bool → List F32 → List F32
  layer dim weights bias relu input =
      fill_row (λ y. output dim weights bias relu input) dim 0 dim 0 (replicate dim 0)

  unfoldable pub mlp3_relu :
      (ℕ → F32)
      → ℕ
      → (ℕ → F32)
      → (ℕ → F32)
      → (ℕ → F32)
      → (ℕ → F32)
      → (ℕ → F32)
      → (ℕ → F32)
      → List F32
  mlp3_relu x dim w0 b0 w1 b1 w2 b2 =
      let h0 = table x dim in layer dim w2 b2 false (layer dim w1 b1 true (layer dim w0 b0 true h0))

module _ (val : ℕ → ℕ → F32) (w : ℕ) where
  length-fill_row : (k x y : ℕ) (dst : List F32) → length (fill_row val w y k x dst) ≡ length dst
  unfolding fill_row
  length-fill_row zero x y dst = refl
  length-fill_row (suc k) x y dst =
      length-fill_row k (x + 1) y _ ∙ length-set dst (y * w + x) (val y x)

  row_keeps :
      (k x y j : ℕ) (dst : List F32)
      → (j < y * w + x) ⊎ (y * w + x + k ≤ j)
      → get_or (fill_row val w y k x dst) j 0 ≡ get_or dst j 0
  unfolding fill_row
  row_keeps zero x y j dst o = refl
  row_keeps (suc k) x y j dst o =
      row_keeps k (x + 1) y j _ (ground (arith, o))
      ∙ get_or-set_ne dst (y * w + x) j (val y x) 0 (ground (arith, o))

  row_stores :
      (k x y j : ℕ) (dst : List F32)
      → y * w + x + k ≤ length dst
      → x ≤ j
      → j < x + k
      → get_or (fill_row val w y k x dst) (y * w + j) 0 ≡ val y j
  unfolding fill_row
  row_stores zero x y j dst l a b = ground (arith, a, b)
  row_stores (suc k) x y j dst l a b = elim (Bool-cases (ltb x j)) [
    | inl e ↦
        row_stores k (x + 1) y j _ (omega (arith, l, length-set dst (y * w + x) (val y x)))
          (ground (arith, e)) (omega (arith, b))
    | inr e ↦
        let same : x ≡ j = ground (arith, e, a) in
        subst
          (λ i.
            get_or (fill_row val w y k (x + 1) (set dst (y * w + x) (val y x))) (y * w + i) 0
            ≡ val y i)
          same
          (row_keeps k (x + 1) y (y * w + x) _ (inl (omega arith))
            ∙ get_or-set_self dst (y * w + x) (val y x) 0 (omega (arith, l)))
  ]

  next_row : (y : ℕ) → (y + 1) * w ≡ y * w + w
  next_row y = omega arith

  rows_keep :
      (k y j : ℕ) (dst : List F32)
      → j < y * w
      → get_or (fill_rows val w k y dst) j 0 ≡ get_or dst j 0
  unfolding fill_rows
  rows_keep zero y j dst l = refl
  rows_keep (suc k) y j dst l =
      rows_keep k (y + 1) j _ (omega (arith, l, next_row y))
      ∙ row_keeps w 0 y j dst (inl (omega (arith, l)))

  rows_store :
      (k y r c : ℕ) (dst : List F32)
      → (y + k) * w ≤ length dst
      → y ≤ r
      → r < y + k
      → c < w
      → get_or (fill_rows val w k y dst) (r * w + c) 0 ≡ val r c
  unfolding fill_rows
  rows_store zero y r c dst l a b lc = ground (arith, a, b)
  rows_store (suc k) y r c dst l a b lc =
      let kept = length-fill_row w 0 y dst in
      let same : (y + suc k) * w ≡ y * w + w + k * w = omega arith in
      let next : (y + 1 + k) * w ≡ y * w + w + k * w = omega arith in
      elim (Bool-cases (ltb y r)) [
        | inl e ↦
            rows_store k (y + 1) r c _ (omega (arith, l, kept, same, next)) (ground (arith, e))
              (omega (arith, b)) lc
        | inr e ↦
            let here : y ≡ r = ground (arith, e, a) in
            subst
              (λ q.
                get_or (fill_rows val w k (y + 1) (fill_row val w y w 0 dst)) (q * w + c) 0
                ≡ val q c)
              here
              (rows_keep k (y + 1) (y * w + c) _ (omega (arith, lc, next_row y))
                ∙ row_stores w 0 y c dst (omega (arith, l, same)) (omega arith) (omega (arith, lc)))
      ]

-- Every place of the enlarged image is written, with the pixel that belongs there.
pub bilinear_upsample_lem :
    (F : FloatOps) (truncated : F32 → ℕ) (src : ℕ → F32) (hi wi ho wo oy ox : ℕ)
    → oy < ho
    → ox < wo
    → get_or (bilinear_upsample F truncated src hi wi ho wo) (oy * wo + ox) 0
      ≡ pixel F truncated src hi wi ho wo oy ox
unfolding bilinear_upsample
bilinear_upsample_lem F truncated src hi wi ho wo oy ox ly lx =
    let n = length-replicate {A = F32} (ho * wo) 0 in
    rows_store (pixel F truncated src hi wi ho wo) wo ho 0 oy ox _ (omega (arith, n)) (omega arith)
      (omega (arith, ly)) lx

-- An output of a layer is the bias and the products, added in order, and not below 0 where there is a ReLU.
pub layer_lem :
    (F : FloatOps) (dim : ℕ) (weights bias : ℕ → F32) (relu : Bool) (input : List F32) (o : ℕ)
    → o < dim
    → get_or (layer F dim weights bias relu input) o 0 ≡ output F dim weights bias relu input o
unfolding layer
layer_lem F dim weights bias relu input o l =
    let value = output F dim weights bias relu input in
    let first : 0 * dim + o ≡ o = omega arith in
    subst (λ i. get_or (fill_row (λ y. value) dim 0 dim 0 (replicate dim 0)) i 0 ≡ value o) first
      (row_stores (λ y. value) dim dim 0 0 o _ (omega (arith, length-replicate {A = F32} dim 0))
        (omega arith) (omega (arith, l)))
