-- ===== src/Motion/Field.antt =====
-- What compute_box_motion reads (gst/common/nvmm_motion.cpp).
use gst_nvmm_cpp.Common.{
  ℕ, zero, suc, ◌+◌, ◌-◌, ◌*◌, ◌^◌, ◌<◌, ◌≤◌, ◌≡◌, refl, ◌∙◌, List, true, false, ◌||◌, ◌==◌, ltb,
  if◌then◌else◌, get_or, arith, Bool-cases, inl, inr, ap,
}
use gst_nvmm_cpp.Common.Int.{ℤ, pos, mul_ℤ, min_ℤ, to_nat}
use gst_nvmm_cpp.Common.Float.{F32, FloatOps, fmax, fmin}
use gst_nvmm_cpp.Ipc.Protocol.{DetObject}
use gst_nvmm_cpp.Gate.Element.{F64, no_object}
use gst_nvmm_cpp.Motion.{
  MotionOps, MotionEntry, FlowField, sum_row, sum_rows, side, span, cells_motion, box_motion,
  box_motions, compute_box_motion,
}

-- The two fields agree on the first `size` numbers.
abbrev pub Agree : ℕ → (ℤ → ℤ) → (ℤ → ℤ) → Type 0
Agree size a b = (k : ℕ) → k < size → a (pos k) ≡ b (pos k)

row_end : (r h w x : ℕ) → r < h → x ≤ w → (r * w + x) * 2 ≤ h * w * 2
row_end r h w x p q = grind arith

module _ (F : FloatOps) (M : MotionOps) (a b : ℤ → ℤ) where
  sum_row_local :
      (size row n : ℕ) (sum : F64)
      → Agree size a b
      → row + n * 2 ≤ size
      → sum_row F M a (pos row) n sum ≡ sum_row F M b (pos row) n sum
  unfolding sum_row
  sum_row_local size row zero sum e h = refl
  sum_row_local size row (suc n) sum e h =
      rw (e row (omega arith), e (row + 1) (omega arith))
        (sum_row_local size (row + 2) n _ e (omega arith))

  sum_rows_local :
      (w h x cols y n : ℕ) (sum : F64)
      → Agree (h * w * 2) a b
      → x + cols ≤ w
      → y + n ≤ h
      → sum_rows F M a w (pos x) cols (pos y) n sum ≡ sum_rows F M b w (pos x) cols (pos y) n sum
  unfolding sum_rows
  sum_rows_local w h x cols y zero sum e p q = refl
  sum_rows_local w h x cols y (suc n) sum e p q =
      rw
        (sum_row_local (h * w * 2) ((y * w + x) * 2) cols sum e
          (omega (arith, row_end y h w (x + cols) (omega arith) p)))
        (sum_rows_local w h x cols (y + 1) n _ e p (omega arith))

min_cell : (k mv : ℕ) → 0 < mv → (c : ℕ) × (min_ℤ (pos k) (pos (mv - 1)) ≡ pos c) × (c < mv)
min_cell k mv h = (if ltb (mv - 1) k then mv - 1 else k, ground arith, ground arith)

rounds_inside : (c1 c2 mv : ℕ) → c1 < mv → c2 < mv → c1 + to_nat (span (pos c1) (pos c2)) ≤ mv
rounds_inside c1 c2 mv p q = ground arith

-- What is assumed of binary32: a number is what is at most itself, so NaN is none; numbers are ordered; a
-- frame of 1 to 2^24 pixels has its last pixel at 0 or more; and the cast to int of a place up to that
-- pixel, divided by the grid, is not negative.
pub record Arithmetic (F : FloatOps) (M : MotionOps) : Type 0 where
  pub zero_number : F.le (F.of_int 0) (F.of_int 0) ≡ true
  pub total : (a b : F32) → F.le a a ≡ true → F.le b b ≡ true → F.lt a b ≡ false → F.le b a ≡ true
  pub below : (a b : F32) → F.lt a b ≡ true → F.le a b ≡ true
  pub chained : (a b c : F32) → F.le a b ≡ true → F.le b c ≡ true → F.le a c ≡ true
  pub numbers : (a b : F32) → F.le a b ≡ true → (F.le a a ≡ true) × (F.le b b ≡ true)
  pub last_pixel :
      (n : ℕ) → 0 < n → n ≤ 2 ^ 24 → F.le (F.of_int 0) (F.sub (F.of_int n) (F.of_int 1)) ≡ true
  pub cast :
      (v : F32) (n grid : ℕ)
      → 0 < grid
      → n ≤ 2 ^ 24
      → F.le (F.of_int 0) v ≡ true
      → F.le v (F.sub (F.of_int n) (F.of_int 1)) ≡ true
      → (k : ℕ) × (M.cell v grid ≡ pos k)

-- A frame has 1 to 2^24 pixels each way.
pub record HasPixels (f : FlowField) : Type 0 where
  pub wide : 0 < f.frame_w
  pub width_fits : f.frame_w ≤ 2 ^ 24
  pub high : 0 < f.frame_h
  pub height_fits : f.frame_h ≤ 2 ^ 24

-- The corners of a box are numbers.
pub record HasCorners (F : FloatOps) (o : DetObject) : Type 0 where
  pub left : F.le o.left o.left ≡ true
  pub top : F.le o.top o.top ≡ true
  pub right : let x = F.sub (F.add o.left o.width) (F.of_int 1) in F.le x x ≡ true
  pub bottom : let y = F.sub (F.add o.top o.height) (F.of_int 1) in F.le y y ≡ true

module _ (F : FloatOps) (M : MotionOps) (A : Arithmetic F M) where
  abbrev Within : F32 → F32 → Type 0
  Within last v = (F.le (F.of_int 0) v ≡ true) × (F.le v last ≡ true)

  fmax_above :
      (a lo : F32)
      → F.le a a ≡ true
      → F.le (F.of_int 0) lo ≡ true
      → F.le (F.of_int 0) (fmax F a lo) ≡ true
  fmax_above a lo n h = elim (Bool-cases (F.lt a lo)) [
    | inl e ↦ rw e h
    | inr e ↦ rw e (A.chained _ _ _ h (A.total a lo n (A.numbers _ _ h).1 e))
  ]

  fmin-Within :
      (v last : F32)
      → F.le (F.of_int 0) v ≡ true
      → F.le (F.of_int 0) last ≡ true
      → Within last (fmin F v last)
  fmin-Within v last h l = elim (Bool-cases (F.lt last v)) [
    | inl e ↦ rw e (l, (A.numbers _ _ l).1)
    | inr e ↦ rw e (h, A.total last v (A.numbers _ _ l).1 (A.numbers _ _ h).1 e)
  ]

  side_inside :
      (at extent : F32) (frame grid mv : ℕ)
      → 0 < frame
      → frame ≤ 2 ^ 24
      → 0 < grid
      → 0 < mv
      → F.le at at ≡ true
      → (let end = F.sub (F.add at extent) (F.of_int 1) in F.le end end ≡ true)
      → (c1 c2 : ℕ) × (side F M at extent frame grid mv ≡ (pos c1, pos c2)) × (c1 < mv) × (c2 < mv)
  unfolding side
  side_inside at extent frame grid mv lf uf lg lm na ne =
      let last = F.sub (F.of_int frame) (F.of_int 1) in
      let l = A.last_pixel frame lf uf in
      let w1 =
        fmin-Within (fmax F at (F.of_int 0)) last (fmax_above at (F.of_int 0) na A.zero_number) l in
      let x1 = fmin F (fmax F at (F.of_int 0)) last in
      let end = F.sub (F.add at extent) (F.of_int 1) in
      let w2 = fmin-Within (fmax F end x1) last (fmax_above end x1 ne w1.0) l in
      let (k1, e1) = A.cast x1 frame grid lg uf w1.0 w1.1 in
      let (k2, e2) = A.cast (fmin F (fmax F end x1) last) frame grid lg uf w2.0 w2.1 in
      let (c1, f1, b1) = min_cell k1 mv lm in
      let (c2, f2, b2) = min_cell k2 mv lm in
      let side1 = ap (λ c. min_ℤ c (pos (mv - 1))) e1 ∙ f1 in
      let side2 = ap (λ c. min_ℤ c (pos (mv - 1))) e2 ∙ f2 in
      (c1, c2, λ i. (side1 i, side2 i), b1, b2)

module _ (F : FloatOps) (M : MotionOps) (f : FlowField) (b : ℤ → ℤ) where
  cells_motion_local :
      (t : F32) (x1 x2 y1 y2 : ℕ)
      → x1 < f.mv_w
      → x2 < f.mv_w
      → y1 < f.mv_h
      → y2 < f.mv_h
      → Agree (f.mv_h * f.mv_w * 2) f.flow b
      → cells_motion F M f t (pos x1, pos x2) (pos y1, pos y2)
        ≡ cells_motion F M (record f { flow = b }) t (pos x1, pos x2) (pos y1, pos y2)
  unfolding cells_motion
  cells_motion_local t x1 x2 y1 y2 p1 p2 q1 q2 e =
      let cols = span (pos x1) (pos x2) in
      let rows = span (pos y1) (pos y2) in
      ap
        (λ sum.
          let mean = M.mean sum (mul_ℤ cols rows) in
          let entry : MotionEntry = record { mean_px = mean; moving = F.le t mean } in entry)
        (sum_rows_local F M f.flow b f.mv_w f.mv_h x1 (to_nat cols) y1 (to_nat rows) 0 e
          (rounds_inside x1 x2 f.mv_w p1 p2) (rounds_inside y1 y2 f.mv_h q1 q2))

  module _ (A : Arithmetic F M) where
    box_motion_local :
        (t : F32) (o : DetObject)
        → 0 < f.mv_w
        → 0 < f.mv_h
        → 0 < f.grid
        → HasPixels f
        → HasCorners F o
        → Agree (f.mv_h * f.mv_w * 2) f.flow b
        → box_motion F M f t o ≡ box_motion F M (record f { flow = b }) t o
    unfolding box_motion
    box_motion_local t o w h g s c e =
        let (x1, x2, ex, p1, p2) =
          side_inside F M A o.left o.width f.frame_w f.grid f.mv_w s.wide s.width_fits g w c.left
            c.right in
        let (y1, y2, ey, q1, q2) =
          side_inside F M A o.top o.height f.frame_h f.grid f.mv_h s.high s.height_fits g h c.top
            c.bottom in
        rw (ex, ey) (cells_motion_local t x1 x2 y1 y2 p1 p2 q1 q2 e)

    box_motions_local :
        (t : F32) (objects : List DetObject) (i n : ℕ)
        → 0 < f.mv_w
        → 0 < f.mv_h
        → 0 < f.grid
        → HasPixels f
        → ((j : ℕ) → j < i + n → HasCorners F (get_or objects j no_object))
        → Agree (f.mv_h * f.mv_w * 2) f.flow b
        → box_motions F M f t objects i n ≡ box_motions F M (record f { flow = b }) t objects i n
    unfolding box_motions
    box_motions_local t objects i zero w h g s c e = refl
    box_motions_local t objects i (suc n) w h g s c e = rw (
      box_motion_local t (get_or objects i no_object) w h g s (c i (omega arith)) e,
      box_motions_local t objects (i + 1) n w h g s (λ j l. c j (omega (arith, l))) e,
    )

-- On a frame of 1 to 2^24 pixels each way and objects whose corners are numbers, the entries depend on the
-- first 2 * mv_w * mv_h numbers of the field alone: nothing before its start or behind its end is read,
-- wherever the boxes lie.
pub compute_box_motion_inside :
    (F : FloatOps) (M : MotionOps) (f : FlowField) (other : ℤ → ℤ) (objects : List DetObject)
    (n : ℕ) (t : F32)
    → Arithmetic F M
    → HasPixels f
    → ((j : ℕ) → j < n → HasCorners F (get_or objects j no_object))
    → Agree (f.mv_h * f.mv_w * 2) f.flow other
    → compute_box_motion F M f objects n t
      ≡ compute_box_motion F M (record f { flow = other }) objects n t
unfolding compute_box_motion
compute_box_motion_inside F M f other objects n t A s c e =
    elim (Bool-cases (f.mv_w == 0 || (f.mv_h == 0 || f.grid == 0))) [
      | inl bad ↦ rw bad
      | inr good ↦ rw good (
          box_motions_local F M f other A t objects 0 n (ground arith) (ground arith) (ground arith)
            s (λ j l. c j (omega (arith, l))) e)
    ]
