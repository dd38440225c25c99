-- ===== src/Tests/Masks.antt =====
-- gst/nvmmsamurai/samurai_seed_math.hpp on a mask of 4 by 3.
use gst_nvmm_cpp.Common.{ℕ, ◌≡◌, refl, [], ◌∷◌, true, get_or}
use gst_nvmm_cpp.Common.Float.{F32, whole}
use gst_nvmm_cpp.MaskBox.{mask_to_box, scan_rows, scan_row, visit, box_of}
use gst_nvmm_cpp.MaskBox.Upsample.{
  fill_row, fill_rows, neighbours, pixel, bilinear_upsample, accumulate, output, layer, mlp3_relu,
}
use gst_nvmm_cpp.MaskBox.Tight.{On, Tight, mask_to_box-Tight}

abbrev mask : ℕ → F32
mask i = get_or (0 ∷ 0 ∷ 0 ∷ 0 ∷ 0 ∷ 9 ∷ 0 ∷ 9 ∷ 0 ∷ 0 ∷ 9 ∷ 0 ∷ []) i 0

box_found : mask_to_box whole mask 3 4 5 ≡ record { x = 1; y = 1; w = 2; h = 1; valid = true }
unfolding mask_to_box scan_rows scan_row visit box_of
box_found = refl

mask_to_box-Tight_example :
    Tight whole mask 4 3 5 (On whole mask 4 3 5) (mask_to_box whole mask 3 4 5)
mask_to_box-Tight_example = mask_to_box-Tight whole mask 4 3 5

-- With whole numbers, a mask of one pixel is enlarged to that pixel.
enlarged : bilinear_upsample whole (λ x. 0) (λ i. 7) 1 1 2 3 ≡ 7 ∷ 7 ∷ 7 ∷ 7 ∷ 7 ∷ 7 ∷ []
unfolding bilinear_upsample fill_rows fill_row pixel neighbours
enlarged = refl

-- One place through three layers of weight 2 and bias 1.
one_place :
    mlp3_relu whole (λ i. 3) 1 (λ i. 2) (λ i. 1) (λ i. 2) (λ i. 1) (λ i. 2) (λ i. 1) ≡ 31 ∷ []
unfolding mlp3_relu layer fill_row output accumulate
one_place = refl
