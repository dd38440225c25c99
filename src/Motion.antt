-- ===== src/Motion.antt =====
-- gst/common/nvmm_motion.cpp: the motion of each box in the field of optical flow. Sizes are not
-- negative.
pub mod Field
use gst_nvmm_cpp.Common.{
  ℕ, zero, suc, ◌+◌, ◌-◌, ◌*◌, List, [], ◌∷◌, Option, none, some, Bool, true, false, ◌||◌, get_or,
  ◌==◌, if◌then◌else◌,
}
use gst_nvmm_cpp.Common.Int.{ℤ, pos, add_ℤ, sub_ℤ, mul_ℤ, min_ℤ, to_nat}
use gst_nvmm_cpp.Common.Float.{F32, FloatOps, fmax, fmin}
use gst_nvmm_cpp.Ipc.Protocol.{DetObject}
use gst_nvmm_cpp.Gate.Element.{F64, no_object}

-- `cell x grid` is `(int)(x / grid)`, of any sign, `s105 v` is `v * kS105`, `add_length sum dx dy` is
-- `sum + std::sqrt((double)dx * dx + (double)dy * dy)`, and `mean sum cells` is `(float)(sum / cells)`.
pub record MotionOps : Type 0 where
  pub cell : F32 → ℕ → ℤ
  pub s105 : ℤ → F32
  pub add_length : F64 → F32 → F32 → F64
  pub mean : F64 → ℤ → F32

pub record MotionEntry : Type 0 where
  pub mean_px : F32
  pub moving : Bool

-- The vectors of `mv`, two numbers for each cell, and what its cells stand for. A negative place lies before
-- the field in memory: `(size_t)cy * mv_w` wraps around, and so does the address.
pub record FlowField : Type 0 where
  pub flow : ℤ → ℤ
  pub mv_w : ℕ
  pub mv_h : ℕ
  pub grid : ℕ
  pub frame_w : ℕ
  pub frame_h : ℕ

-- `c2 - c1 + 1`, where it fits an int.
abbrev pub span : ℤ → ℤ → ℤ
span c1 c2 = add_ℤ (sub_ℤ c2 c1) (pos 1)

module _ (F : FloatOps) (M : MotionOps) where
  -- `n` cells of a row.
  unfoldable pub sum_row : (ℤ → ℤ) → ℤ → ℕ → F64 → F64
  sum_row flow row zero sum = sum
  sum_row flow row (suc n) sum =
      sum_row flow (add_ℤ row (pos 2)) n
        (M.add_length sum (M.s105 (flow row)) (M.s105 (flow (add_ℤ row (pos 1)))))

  -- `n` rows from `cy`, each of `cols` cells from `cx1`.
  unfoldable pub sum_rows : (ℤ → ℤ) → ℕ → ℤ → ℕ → ℤ → ℕ → F64 → F64
  sum_rows flow mv_w cx1 cols cy zero sum = sum
  sum_rows flow mv_w cx1 cols cy (suc n) sum =
      sum_rows flow mv_w cx1 cols (add_ℤ cy (pos 1)) n
        (sum_row flow (mul_ℤ (add_ℤ (mul_ℤ cy (pos mv_w)) cx1) (pos 2)) cols sum)

  -- The first and the last cell of a box's side, in a field of `mv` cells, one at least.
  unfoldable pub side : F32 → F32 → ℕ → ℕ → ℕ → ℤ × ℤ
  side at extent frame grid mv =
      let last = F.sub (F.of_int frame) (F.of_int 1) in
      let x1 = fmin F (fmax F at (F.of_int 0)) last in
      let x2 = fmin F (fmax F (F.sub (F.add at extent) (F.of_int 1)) x1) last in
      (min_ℤ (M.cell x1 grid) (pos (mv - 1)), min_ℤ (M.cell x2 grid) (pos (mv - 1)))

  -- One object, from its cells on. A loop from `c1` to `c2` runs `span` times, if that is positive.
  unfoldable pub cells_motion : FlowField → F32 → ℤ × ℤ → ℤ × ℤ → MotionEntry
  cells_motion f threshold_px (cx1, cx2) (cy1, cy2) =
      let cols = span cx1 cx2 in
      let rows = span cy1 cy2 in
      let sum = sum_rows f.flow f.mv_w cx1 (to_nat cols) cy1 (to_nat rows) 0 in
      let mean = M.mean sum (mul_ℤ cols rows) in
      record { mean_px = mean; moving = F.le threshold_px mean }

  unfoldable pub box_motion : FlowField → F32 → DetObject → MotionEntry
  box_motion f threshold_px o =
      cells_motion f threshold_px (side o.left o.width f.frame_w f.grid f.mv_w)
        (side o.top o.height f.frame_h f.grid f.mv_h)

  -- The loop over `n` objects, the one at hand being number `i`.
  unfoldable pub box_motions : FlowField → F32 → List DetObject → ℕ → ℕ → List MotionEntry
  box_motions f threshold_px objects i zero = []
  box_motions f threshold_px objects i (suc n) =
      box_motion f threshold_px (get_or objects i no_object)
      ∷ box_motions f threshold_px objects (i + 1) n

  -- The entries that are written; none is the answer 0. None of the pointers is null.
  unfoldable pub compute_box_motion : FlowField → List DetObject → ℕ → F32 → List MotionEntry
  compute_box_motion f objects n threshold_px =
      if f.mv_w == 0 || (f.mv_h == 0 || f.grid == 0)
      then []
      else box_motions f threshold_px objects 0 n
