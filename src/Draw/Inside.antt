-- ===== src/Draw/Inside.antt =====
-- gst/nvmmdrawdet/gstnvmmdrawdet.cpp: where the drawing functions store.
use native.Mathlib.Nat.{mul-le-mul_right, mul_comm, suc-mul}
use gst_nvmm_cpp.Common.{
  ℕ, zero, suc, ◌+◌, ◌-◌, ◌*◌, ◌≤◌, ◌<◌, min, List, [], ◌||◌, All, All-append, leb, if◌then◌else◌,
  Bool-cases, inl, inr, arith, ◌%◌, ◌/◌, ◌^◌, ◌==◌, length, get_or,
}
use gst_nvmm_cpp.Common.Int.{ℤ, pos, negsuc, add_ℤ, to_nat}
use gst_nvmm_cpp.Draw.Pixels.{
  Store, Color, each, pixel, px, draw_rect, fill_rect, glyph, draw_text, printable, font_w, font_h,
  black,
}

-- The offset lies in a frame of four bytes a pixel.
abbrev pub Inside : ℕ → ℕ → Store → Type 0
Inside w h s = s.0 < w * h * 4

each-All :
    (P : Store → Type 0) (n k : ℕ) (f : ℕ → List Store)
    → ((i : ℕ) → k ≤ i → i < k + n → All P (f i))
    → All P (each n k f)
unfolding each
each-All P zero k f a = tt
each-All P (suc n) k f a =
    All-append P (f k) (each n (k + 1) f) (a k (omega arith) (omega arith))
      (each-All P n (k + 1) f (λ i le lt. a i (omega arith) (omega arith)))

-- The same where every round stores well.
each_any :
    (P : Store → Type 0) (n : ℕ) (f : ℕ → List Store) → ((i : ℕ) → All P (f i)) → All P (each n 0 f)
each_any P n f a = each-All P n 0 f (λ i le lt. a i)

area : (w h x y : ℕ) → x < w → y < h → y * w + x + 1 ≤ w * h
area w h x y lx ly =
    omega (arith, mul-le-mul_right {m = suc y} {n = h} w (omega arith), suc-mul y w, mul_comm w h)

pixel-Inside : (w h x y : ℕ) (c : Color) → x < w → y < h → All (Inside w h) (pixel w x y c)
unfolding pixel
pixel-Inside w h x y c lx ly =
    let a = area w h x y lx ly in
    (omega (arith, a), (omega (arith, a), (omega (arith, a), (omega (arith, a), tt))))

px-Inside : (w h : ℕ) (x y : ℤ) (c : Color) → All (Inside w h) (px w h x y c)
unfolding px
px-Inside w h (pos x) (pos y) c = elim (Bool-cases (leb w x || leb h y)) [
  | inl e ↦ rw e tt
  | inr e ↦ rw e (pixel-Inside w h x y c (ground (arith, e)) (ground (arith, e)))
]
px-Inside w h (pos x) (negsuc y) c = tt
px-Inside w h (negsuc x) (pos y) c = tt
px-Inside w h (negsuc x) (negsuc y) c = tt

pub draw_rect-Inside :
    (width height : ℕ) (x y w h : ℤ) (t : ℕ) (c : Color)
    → All (Inside width height) (draw_rect width height x y w h t c)
unfolding draw_rect
draw_rect-Inside width height x y w h t c = each_any In t _ (λ k.
    All-append In _ _
      (each_any In (to_nat w) _
        (λ i. All-append In _ _ (px-Inside width height _ _ c) (px-Inside width height _ _ c)))
      (each_any In (to_nat h) _
        (λ i. All-append In _ _ (px-Inside width height _ _ c) (px-Inside width height _ _ c))))
  where
    In : Store → Type 0
    In = Inside width height

pub fill_rect-Inside :
    (width height : ℕ) (x y w h : ℤ) (c : Color)
    → All (Inside width height) (fill_rect width height x y w h c)
unfolding fill_rect
fill_rect-Inside width height x y w h c =
    rows (to_nat y) (min height (to_nat (add_ℤ y h))) (to_nat x) (min width (to_nat (add_ℤ x w)))
      (omega arith) (omega arith)
  where
    rows :
        (y0 y1 x0 x1 : ℕ)
        → y1 ≤ height
        → x1 ≤ width
        → All
            (Inside width height)
            (each (y1 - y0) y0 (λ yy. each (x1 - x0) x0 (λ xx. pixel width xx yy c)))
    rows y0 y1 x0 x1 hy hx = each-All (Inside width height) (y1 - y0) y0 _ (λ yy ly hy'.
        each-All (Inside width height) (x1 - x0) x0 _
          (λ xx lx hx'. pixel-Inside width height xx yy c (omega arith) (omega arith)))

pub draw_text-Inside :
    (font : ℕ → ℕ → ℕ) (width height : ℕ) (x y : ℤ) (str : List ℕ) (s : ℕ) (c : Color)
    → All (Inside width height) (draw_text font width height x y str s c)
unfolding draw_text glyph
draw_text-Inside font width height x y str s c =
    All-append In _ _ (fill_rect-Inside width height _ _ _ _ c) (
      each_any In (length str) _
        (λ i. each_any In font_h _ (λ row. each_any In font_w _ (λ col. dot i row col))))
  where
    In : Store → Type 0
    In = Inside width height

    dot :
        (i row col : ℕ)
        → All In (
            if (font (printable font (get_or str i b'?')) row / 2 ^ col) % 2 == 1
            then fill_rect width height
                (add_ℤ x (pos ((i * font_w + col) * s)))
                (add_ℤ y (pos (row * s)))
                (pos s)
                (pos s)
                black
            else [])
    dot i row col =
        elim (Bool-cases ((font (printable font (get_or str i b'?')) row / 2 ^ col) % 2 == 1)) [
          | inl e ↦ rw e (fill_rect-Inside width height _ _ _ _ black)
          | inr e ↦ rw e tt
        ]
