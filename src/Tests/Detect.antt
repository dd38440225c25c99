-- ===== src/Tests/Detect.antt =====
-- gst/nvmminfer/yolo_parser.cpp on an output of two classes and three proposals.
use gst_nvmm_cpp.Common.{
  ℕ, ◌*◌, ◌/◌, ◌≤◌, ◌≡◌, refl, List, [], ◌∷◌, Bool, true, false, All, get_or, map, length, take,
  ltb, ◌==◌, if◌then◌else◌, arith,
}
use gst_nvmm_cpp.Common.Float.{F32, FloatOps, whole}
use gst_nvmm_cpp.Common.Int.{pos}
use gst_nvmm_cpp.Ipc.Protocol.{meta_max_objects}
use gst_nvmm_cpp.Yolo.{
  Det, YoloParams, LetterboxInfo, half, one, yolo_parse, to_object, candidates, candidate,
  best_class, box_of, suppress, mark, iou,
}
use gst_nvmm_cpp.Yolo.Labels.{coco_label}
use gst_nvmm_cpp.Yolo.Suppress.{survivors, Apart}
use gst_nvmm_cpp.Yolo.Candidates.{
  Permutes, IsTransitive, IsDetection, yolo_parse-survivors, yolo_parse-IsDetection,
}

-- Whole numbers, a ratio in hundredths.
abbrev hundredths : FloatOps
hundredths = record whole {
  mul = λ a b. if b == half then a / 2 else if b == one then a else a * b;
  div = λ a b. a * 100 / b;
}

abbrev insert : Det → List Det → List Det
insert d [] = d ∷ []
insert d (e ∷ ds) = let rest = insert d ds in if ltb e.score d.score then d ∷ e ∷ ds else e ∷ rest

abbrev by_score : List Det → List Det
by_score [] = []
by_score (d ∷ ds) = insert d (by_score ds)

insert-All : (P : Det → Type 0) (d : Det) (ds : List Det) → P d → All P ds → All P (insert d ds)
insert-All P d [] p a = (p, tt)
insert-All P d (e ∷ ds) p a = by (ltb e.score d.score) (insert-All P d ds p a.1)
  where
    by : (b : Bool) → All P (insert d ds) → All P (if b then d ∷ e ∷ ds else e ∷ insert d ds)
    by true r = (p, a)
    by false r = (a.0, r)

by_score-Permutes : Permutes by_score
by_score-Permutes P [] a = tt
by_score-Permutes P (d ∷ ds) a = insert-All P d (by_score ds) a.0 (by_score-Permutes P ds a.1)

abbrev rows : List F32
rows = 10 ∷ 11 ∷ 50 ∷ 10 ∷ 10 ∷ 50 ∷ 8 ∷ 8 ∷ 10 ∷ 8 ∷ 8 ∷ 10 ∷ 9 ∷ 7 ∷ 0 ∷ 0 ∷ 0 ∷ 8 ∷ []

abbrev output : ℕ → F32
output i = get_or rows i 0

abbrev params : YoloParams
params = record { num_classes = 2; num_proposals = 3; conf_threshold = 5; iou_threshold = 45 }

abbrev letterbox : LetterboxInfo
letterbox = record { scale = 0; pad_x = 0; pad_y = 0; frame_w = 100; frame_h = 100 }

hundredths-IsTransitive : IsTransitive hundredths
hundredths-IsTransitive a b c h k = ground (arith, h, k)

abbrev person : Det
person = record { x1 = 6; y1 = 6; x2 = 14; y2 = 14; score = 9; cls = 0 }

abbrev bicycle : Det
bicycle = record { x1 = 45; y1 = 45; x2 = 55; y2 = 55; score = 8; cls = 1 }

-- The second proposal overlaps the first, of the same class.
two_found :
    yolo_parse hundredths by_score output params letterbox
    ≡ (to_object hundredths person ∷ to_object hundredths bicycle ∷ [], false)
unfolding yolo_parse candidates candidate best_class box_of suppress mark iou
two_found = refl

label_found : coco_label (pos 1) ≡ b'b' ∷ b'i' ∷ b'c' ∷ b'y' ∷ b'c' ∷ b'l' ∷ b'e' ∷ []
unfolding coco_label
label_found = refl

yolo_parse-survivors_example :
    let kept =
      survivors hundredths 45 [] (by_score (candidates hundredths output params letterbox 3 0)) in
    yolo_parse hundredths by_score output params letterbox
    ≡ (map (to_object hundredths) (take meta_max_objects kept), ltb meta_max_objects (length kept))
yolo_parse-survivors_example = yolo_parse-survivors hundredths by_score output params letterbox

yolo_parse-IsDetection_example :
    (ds : List Det) × ((yolo_parse hundredths by_score output params letterbox).0
      ≡ map (to_object hundredths) ds)
    × (length ds ≤ meta_max_objects)
    × All (IsDetection hundredths params) ds
    × Apart hundredths 45 ds
yolo_parse-IsDetection_example =
    yolo_parse-IsDetection hundredths by_score output params letterbox by_score-Permutes
      hundredths-IsTransitive
