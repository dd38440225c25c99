-- ===== src/Tests/Composed.antt =====
-- gst/nvmmcompositor/gstnvmmcompositor.cpp with three pads: one left half, one at its end, one that fills the
-- rest.
use gst_nvmm_cpp.Common.{◌≡◌, refl, List, [], ◌∷◌, none, some, true, false, map}
use gst_nvmm_cpp.Compositor.{CompositorPad, SinkPad, Compositor, pushed, dst_rect, aggregate}
use gst_nvmm_cpp.Compositor.Tiles.{expected, emptied, aggregate_lem}

abbrev wide : Compositor
wide = record { out_width = 1280; out_height = 720; src_caps_set = false }

abbrev left_half : CompositorPad
left_half = record { xpos = 0; ypos = 0; width = 640; height = 0 }

abbrev right_half : CompositorPad
right_half = record { xpos = 640; ypos = 0; width = 0; height = 0 }

abbrev three : List SinkPad
three =
    record { pad = left_half; buffer = some (record { surface = true; pts = none }); eos = false }
    ∷ record { pad = left_half; buffer = none; eos = true }
    ∷ record {
      pad = right_half;
      buffer = some (record { surface = true; pts = some 40 });
      eos = false;
    }
    ∷ []

both_halves :
    expected wide three
    ≡ pushed (some 40) (
        record { top = 0; left = 0; width = 640; height = 720 }
        ∷ record { top = 0; left = 640; width = 640; height = 720 }
        ∷ [])
unfolding dst_rect
both_halves = refl

-- A pad that starts to the right of the output is given a width near 2 ^ 32.
beyond :
    dst_rect wide (record { xpos = 1281; ypos = 0; width = 0; height = 720 })
    ≡ record { top = 0; left = 1281; width = 4294967295; height = 720 }
unfolding dst_rect
beyond = refl

aggregate_lem_example :
    let (flow, pads', s') = aggregate true true three wide in
    (flow ≡ expected wide three) × (pads' ≡ map emptied three)
aggregate_lem_example = aggregate_lem three wide
