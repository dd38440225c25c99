-- ===== src/Tests/Drawing.antt =====
-- gst/nvmmdrawdet on a frame of 4 by 3 pixels.
use gst_nvmm_cpp.Common.{ℕ, ◌≡◌, refl, [], ◌∷◌, none, some, true, false, map}
use gst_nvmm_cpp.Common.Float.{whole}
use gst_nvmm_cpp.Common.Int.{pos, negsuc}
use gst_nvmm_cpp.Draw.Pixels.{Color, each, pixel, px, draw_rect, fill_rect, class_color}
use gst_nvmm_cpp.Draw.{DrawDet, DrawCalls, Metas, Formats, init, transform, transform_size}
use gst_nvmm_cpp.Draw.Output.{Contained, transform-Contained}

abbrev red : Color
red = record { r = 255; g = 64; b = 64 }

-- A rectangle that begins left of the picture and ends below it.
offsets :
    map (λ s. s.0) (fill_rect 4 3 (negsuc 0) (pos 1) (pos 2) (pos 5) red)
    ≡ 16 ∷ 17 ∷ 18 ∷ 19 ∷ 32 ∷ 33 ∷ 34 ∷ 35 ∷ []
unfolding fill_rect each pixel
offsets = refl

outline :
    map (λ s. s.0) (draw_rect 4 3 (negsuc 0) (pos 2) (pos 2) (pos 1) 1 red)
    ≡ 32 ∷ 33 ∷ 34 ∷ 35 ∷ 32 ∷ 33 ∷ 34 ∷ 35 ∷ 32 ∷ 33 ∷ 34 ∷ 35 ∷ []
unfolding draw_rect each px pixel
outline = refl

wraps : class_color (negsuc 0) ≡ record { r = 160; g = 64; b = 255 }
unfolding class_color
wraps = refl

frame_bytes : transform_size false (some (pos 4)) (some (pos 3)) ≡ some 48
unfolding transform_size
frame_bytes = refl

abbrev formats : Formats
formats = record {
  to_int = pos;
  object_text = λ o m c. o.label;
  target_text = λ f. [];
  hud_text = λ f v n. b'F' ∷ [];
  next_fps = λ a e d. d;
}

abbrev blank_font : ℕ → ℕ → ℕ
blank_font c row = 63

abbrev drawer : DrawDet
drawer = record init { width = 4; height = 3 }

abbrev calls : DrawCalls
calls = record {
  created = some 1;
  mapped = true;
  registered = some 2;
  source = true;
  converted = true;
  output = some 48;
  copied = true;
}

abbrev metas : Metas
metas = record {
  det = some (record {
    frame_number = 0;
    infer_width = 4;
    infer_height = 3;
    flags = 0;
    num_objects = 1;
    objects =
        record {
          left = 1;
          top = 1;
          width = 9;
          height = 9;
          class_id = pos 0;
          confidence = 1;
          tracker_id = 0;
          label = b'c' ∷ [];
        }
        ∷ [];
  });
  motion = none;
  classes = none;
  track = none;
}

transform-Contained_example :
    Contained (some 48) (transform whole formats blank_font calls 5 metas drawer).0
transform-Contained_example = transform-Contained whole formats blank_font calls 5 metas drawer
