-- ===== src/Draw/Pixels.antt =====
-- gst/nvmmdrawdet/gstnvmmdrawdet.cpp: the drawing functions, as the bytes that they store. No sum of
-- coordinates leaves the range of int. The glyphs of the generated font6x8.h are a parameter.
use gst_nvmm_cpp.Common.{
  ℕ, zero, suc, ◌+◌, ◌-◌, ◌*◌, ◌/◌, ◌%◌, ◌^◌, min, List, [], ◌∷◌, ◌++◌, ◌||◌, get_or, length, leb,
  ltb, ◌==◌, if◌then◌else◌,
}
use gst_nvmm_cpp.Common.Int.{ℤ, pos, negsuc, add_ℤ, sub_ℤ, to_nat}

-- An offset from the start of the frame, and the byte stored there.
abbrev pub Store : Type 0
Store = ℕ × ℕ

pub record Color : Type 0 where
  pub r : ℕ
  pub g : ℕ
  pub b : ℕ

abbrev pub palette : List Color
palette =
    record { r = 255; g = 64; b = 64 }
    ∷ record { r = 64; g = 255; b = 64 }
    ∷ record { r = 64; g = 160; b = 255 }
    ∷ record { r = 255; g = 255; b = 64 }
    ∷ record { r = 255; g = 64; b = 255 }
    ∷ record { r = 64; g = 255; b = 255 }
    ∷ record { r = 255; g = 160; b = 64 }
    ∷ record { r = 160; g = 64; b = 255 }
    ∷ []

-- (guint)id, whose negative numbers wrap around
abbrev pub to_uint : ℤ → ℕ
to_uint (pos n) = n % 2 ^ 32
to_uint (negsuc n) = (2 ^ 32 - 1) - n % 2 ^ 32

unfoldable pub class_color : ℤ → Color
class_color id = get_or palette (to_uint id % 8) (record { r = 0; g = 0; b = 0 })

-- The stores of `n` rounds, the first of which is round `k`.
unfoldable pub each : ℕ → ℕ → (ℕ → List Store) → List Store
each zero k f = []
each (suc n) k f = f k ++ each n (k + 1) f

-- The four bytes at `(yy * W + xx) * 4`
unfoldable pub pixel : ℕ → ℕ → ℕ → Color → List Store
pixel w x y c =
    let p = (y * w + x) * 4 in (p, c.r) ∷ (p + 1, c.g) ∷ (p + 2, c.b) ∷ (p + 3, 255) ∷ []

unfoldable pub px : ℕ → ℕ → ℤ → ℤ → Color → List Store
px w h (pos x) (pos y) c = if leb w x || leb h y then [] else pixel w x y c
px w h (pos x) (negsuc y) c = []
px w h (negsuc x) (pos y) c = []
px w h (negsuc x) (negsuc y) c = []

unfoldable pub draw_rect : ℕ → ℕ → ℤ → ℤ → ℤ → ℤ → ℕ → Color → List Store
draw_rect width height x y w h t c = each t 0 (λ k.
    each (to_nat w) 0 (λ i.
      px width height (add_ℤ x (pos i)) (add_ℤ y (pos k)) c
      ++ px width height (add_ℤ x (pos i)) (sub_ℤ (add_ℤ y h) (pos (1 + k))) c)
    ++ each (to_nat h) 0 (λ i.
      px width height (add_ℤ x (pos k)) (add_ℤ y (pos i)) c
      ++ px width height (sub_ℤ (add_ℤ x w) (pos (1 + k))) (add_ℤ y (pos i)) c))

-- Where MIN(W, x + w) is negative its loop makes no round, as from 0.
unfoldable pub fill_rect : ℕ → ℕ → ℤ → ℤ → ℤ → ℤ → Color → List Store
fill_rect width height x y w h c =
    let x0 = to_nat x in
    let y0 = to_nat y in
    let x1 = min width (to_nat (add_ℤ x w)) in
    let y1 = min height (to_nat (add_ℤ y h)) in
    each (y1 - y0) y0 (λ yy. each (x1 - x0) x0 (λ xx. pixel width xx yy c))

abbrev pub font_w : ℕ
font_w = 6

abbrev pub font_h : ℕ
font_h = 8

abbrev pub black : Color
black = record { r = 0; g = 0; b = 0 }

-- `font c row` is the row of the glyph of character `c`, from 32 to 126.
module _ (font : ℕ → ℕ → ℕ) where
  abbrev pub printable : ℕ → ℕ
  printable c = if ltb c 32 || ltb 126 c then b'?' else c

  unfoldable pub glyph : ℕ → ℕ → ℤ → ℤ → ℕ → ℕ → ℕ → List Store
  glyph width height x y i ch s = each font_h 0 (λ row. each font_w 0 (λ col.
      if (font (printable ch) row / 2 ^ col) % 2 == 1
      then fill_rect width height (add_ℤ x (pos ((i * font_w + col) * s))) (add_ℤ y (pos (row * s)))
          (pos s) (pos s) black
      else []))

  unfoldable pub draw_text : ℕ → ℕ → ℤ → ℤ → List ℕ → ℕ → Color → List Store
  draw_text width height x y str s c =
      let n = length str in
      fill_rect width height (sub_ℤ x (pos s)) (sub_ℤ y (pos s)) (pos (n * font_w * s + 2 * s))
        (pos (font_h * s + 2 * s)) c
      ++ each n 0 (λ i. glyph width height x y i (get_or str i b'?') s)
