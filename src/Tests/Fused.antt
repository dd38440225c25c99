-- ===== src/Tests/Fused.antt =====
-- gst/nvmmfusion/gstnvmmfusion.cpp and gst/common/nvmm_motion.cpp: three detections and three fields, of which
-- two share a time stamp; and a box over a field of 2 by 2 cells.
use gst_nvmm_cpp.Common.{
  ℕ, zero, suc, get_or, ◌+◌, ◌*◌, ◌/◌, ◌<◌, ◌≡◌, refl, List, [], ◌∷◌, none, some, true, false,
  arith, ltb, if◌then◌else◌,
}
use gst_nvmm_cpp.Common.Int.{ℤ, pos, to_nat}
use gst_nvmm_cpp.Common.Float.{whole}
use gst_nvmm_cpp.Ipc.Protocol.{DetObject}
use gst_nvmm_cpp.Gate.Element.{DoubleOps, no_object}
use gst_nvmm_cpp.Motion.{
  MotionOps, FlowField, compute_box_motion, box_motions, box_motion, cells_motion, side, sum_rows,
  sum_row,
}
use gst_nvmm_cpp.Motion.Field.{Arithmetic, HasPixels, HasCorners, compute_box_motion_inside}
use gst_nvmm_cpp.Fusion.{Buffer, Fusion, fuse}
use gst_nvmm_cpp.Fusion.Join.{joined, Drained, run, run-joined}

abbrev doubles : DoubleOps
doubles = record { narrow = λ x. x; centre = λ a w. a + w / 2; below = ltb }

abbrev cells : MotionOps
cells = record {
  cell = λ x grid. pos (x / grid);
  s105 = to_nat;
  add_length = λ sum dx dy. sum + dx + dy;
  mean = λ sum n. sum / to_nat n;
}

abbrev at : ℕ → Buffer
at t = record { pts = some t; det = none; flow = none }

abbrev branches : Fusion
branches = record {
  det_pad = record { queue = at 1 ∷ at 2 ∷ at 4 ∷ []; eos = false };
  flow_pad = record { queue = at 2 ∷ at 3 ∷ at 4 ∷ []; eos = false };
  src_caps_set = false;
  compute_motion = true;
  motion_threshold = 1;
}

run-joined_example :
    let (out, s') = run whole doubles cells true 6 branches in
    (out
      ≡ joined
          (fuse whole doubles cells true 1)
          (at 1 ∷ at 2 ∷ at 4 ∷ [])
          (at 2 ∷ at 3 ∷ at 4 ∷ []))
    × Drained s'
run-joined_example =
    run-joined whole doubles cells true branches 6 0 0 refl refl refl
      (1, refl, omega arith, (2, refl, omega arith, (4, refl, omega arith, tt)))
      (2, refl, omega arith, (3, refl, omega arith, (4, refl, omega arith, tt))) (omega arith)

two_pairs :
    joined (fuse whole doubles cells true 1) (at 1 ∷ at 2 ∷ at 4 ∷ []) (at 2 ∷ at 3 ∷ at 4 ∷ [])
    ≡ fuse whole doubles cells true 1 (at 2) (at 2)
      ∷ fuse whole doubles cells true 1 (at 4) (at 4)
      ∷ []
two_pairs = refl

abbrev field : FlowField
field = record {
  flow = λ k. pos (to_nat k + 1);
  mv_w = 2;
  mv_h = 2;
  grid = 4;
  frame_w = 8;
  frame_h = 8;
}

abbrev right_half : List DetObject
right_half = record no_object { left = 5; top = 0; width = 9; height = 8 } ∷ []

-- The cells 1 and 3, with the vectors (3, 4) and (7, 8).
right_half_moves :
    compute_box_motion whole cells field right_half 1 5
    ≡ record { mean_px = 11; moving = true } ∷ []
unfolding compute_box_motion box_motions box_motion cells_motion side sum_rows sum_row
right_half_moves = refl

abbrev other : ℤ → ℤ
other k = if ltb (to_nat k) 8 then pos (to_nat k + 1) else pos 0

same_vectors : (k : ℕ) → k < 2 * 2 * 2 → pos (k + 1) ≡ other (pos k)
same_vectors k h = ground arith

cells-Arithmetic : Arithmetic whole cells
cells-Arithmetic = record {
  zero_number = refl;
  total = λ a b p q h. ground (arith, h);
  below = λ a b h. ground (arith, h);
  chained = λ a b c p q. ground (arith, p, q);
  numbers = λ a b h. (ground arith, ground arith);
  last_pixel = λ n l u. ground arith;
  cast = λ v n grid l u p q. (v / grid, refl);
}

field-HasPixels : HasPixels field
field-HasPixels = record {
  wide = omega arith;
  width_fits = omega arith;
  high = omega arith;
  height_fits = omega arith;
}

corners : (j : ℕ) → j < 1 → HasCorners whole (get_or right_half j no_object)
corners zero l = record { left = refl; top = refl; right = refl; bottom = refl }
corners (suc j) l = absurd (omega arith)

compute_box_motion_inside_example :
    compute_box_motion whole cells field right_half 1 5
    ≡ compute_box_motion whole cells (record field { flow = other }) right_half 1 5
compute_box_motion_inside_example =
    compute_box_motion_inside whole cells field other right_half 1 5 cells-Arithmetic
      field-HasPixels corners same_vectors
