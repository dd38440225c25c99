-- ===== src/Yolo.antt =====
-- gst/nvmminfer/yolo_parser.cpp: the detections in a YOLO network's output. The numbers of classes and
-- proposals, the frame's size and class numbers are not negative.
pub mod Labels
pub mod Suppress
pub mod Candidates
use gst_nvmm_cpp.Common.{
  ℕ, zero, suc, ◌+◌, ◌-◌, ◌*◌, List, [], ◌∷◌, ◌++◌, Option, none, some, Bool, true, false, ◌&&◌,
  ◌||◌, not, leb, ◌==◌, if◌then◌else◌, length, replicate, take,
}
use gst_nvmm_cpp.Common.Int.{pos}
use gst_nvmm_cpp.Common.Float.{F32, FloatOps, fmax, fmin}
use gst_nvmm_cpp.Ipc.Protocol.{DetObject, meta_label_len, meta_max_objects}
use gst_nvmm_cpp.Yolo.Labels.{coco_label}

pub record LetterboxInfo : Type 0 where
  pub scale : F32
  pub pad_x : F32
  pub pad_y : F32
  pub frame_w : ℕ
  pub frame_h : ℕ

pub record YoloParams : Type 0 where
  pub num_classes : ℕ
  pub num_proposals : ℕ
  pub conf_threshold : F32
  pub iou_threshold : F32

pub record Det : Type 0 where
  pub x1 : F32
  pub y1 : F32
  pub x2 : F32
  pub y2 : F32
  pub score : F32
  pub cls : ℕ

-- 0.5f and 1.f
abbrev pub half : F32
half = 0x3F000000

abbrev pub one : F32
one = 0x3F800000

unfoldable pub to_object : FloatOps → Det → DetObject
to_object F d = record {
  left = d.x1;
  top = d.y1;
  width = F.sub d.x2 d.x1;
  height = F.sub d.y2 d.y1;
  class_id = pos d.cls;
  confidence = d.score;
  tracker_id = 0;
  label = take (meta_label_len - 1) (coco_label (pos d.cls));
}

module _ (F : FloatOps) where
  unfoldable pub iou : Det → Det → F32
  iou a b =
      let iw = fmax F 0 (F.sub (fmin F a.x2 b.x2) (fmax F a.x1 b.x1)) in
      let ih = fmax F 0 (F.sub (fmin F a.y2 b.y2) (fmax F a.y1 b.y1)) in
      let inter = F.mul iw ih in
      let ua =
        F.sub
          (F.add (F.mul (F.sub a.x2 a.x1) (F.sub a.y2 a.y1))
            (F.mul (F.sub b.x2 b.x1) (F.sub b.y2 b.y1)))
          inter in
      if F.lt 0 ua then F.div inter ua else 0

  -- The best class of proposal `i`: `c` classes are left, and this one is `k`.
  unfoldable pub best_class : (ℕ → F32) → ℕ → ℕ → ℕ → ℕ → Option ℕ → F32 → Option ℕ × F32
  best_class output n i zero k best best_s = (best, best_s)
  best_class output n i (suc c) k best best_s =
      let s = output ((4 + k) * n + i) in
      let better = F.lt best_s s in
      best_class output n i c (k + 1) (if better then some k else best)
        (if better then s else best_s)

  -- A proposal's box in the frame, or nothing if it is empty there.
  unfoldable pub box_of : (ℕ → F32) → ℕ → LetterboxInfo → ℕ → ℕ → F32 → Option Det
  box_of output n lb i cls score =
      let inv_scale = (if F.lt 0 lb.scale then F.div one lb.scale else one) in
      let cx = output (0 * n + i) in
      let cy = output (1 * n + i) in
      let w = output (2 * n + i) in
      let h = output (3 * n + i) in
      let left = F.mul (F.sub (F.sub cx (F.mul w half)) lb.pad_x) inv_scale in
      let top = F.mul (F.sub (F.sub cy (F.mul h half)) lb.pad_y) inv_scale in
      let right = F.mul (F.sub (F.add cx (F.mul w half)) lb.pad_x) inv_scale in
      let bottom = F.mul (F.sub (F.add cy (F.mul h half)) lb.pad_y) inv_scale in
      let x1 = fmin F (F.of_int lb.frame_w) (fmax F 0 left) in
      let y1 = fmin F (F.of_int lb.frame_h) (fmax F 0 top) in
      let x2 = fmin F (F.of_int lb.frame_w) (fmax F 0 right) in
      let y2 = fmin F (F.of_int lb.frame_h) (fmax F 0 bottom) in
      if F.le x2 x1 || F.le y2 y1
      then none
      else some (record { x1 = x1; y1 = y1; x2 = x2; y2 = y2; score = score; cls = cls })

  unfoldable pub candidate : (ℕ → F32) → YoloParams → LetterboxInfo → ℕ → Option Det
  unfolding best_class box_of
  candidate output p lb i =
      let (best, s) = best_class output p.num_proposals i p.num_classes 0 none p.conf_threshold in
      elim best [ none ↦ none | some k ↦ box_of output p.num_proposals lb i k s ]

  abbrev pub push_back : Option Det → List Det → List Det
  push_back none ds = ds
  push_back (some d) ds = d ∷ ds

  -- The candidates of the proposals from `i` on, of which `n` are left.
  unfoldable pub candidates : (ℕ → F32) → YoloParams → LetterboxInfo → ℕ → ℕ → List Det
  candidates output p lb zero i = []
  candidates output p lb (suc n) i =
      push_back (candidate output p lb i) (candidates output p lb n (i + 1))

  abbrev pub conflicts : F32 → Det → Det → Bool
  conflicts threshold a b = (b.cls == a.cls) && F.lt threshold (iou a b)

  -- The inner loop: the flags of the candidates after `a`.
  unfoldable pub mark : F32 → Det → List Det → List Bool → List Bool
  mark threshold a [] flags = flags
  mark threshold a (b ∷ bs) [] = []
  mark threshold a (b ∷ bs) (removed ∷ flags) =
      (if not removed && conflicts threshold a b then true else removed) ∷ mark threshold a bs flags

  -- The outer loop over the candidates and their flags. The flags before the current candidate are not
  -- read again.
  unfoldable pub suppress : F32 → List Det → List Bool → ℕ → List DetObject → List DetObject × Bool
  suppress threshold [] flags kept out = (out, false)
  suppress threshold (a ∷ ds) [] kept out = (out, false)
  suppress threshold (a ∷ ds) (true ∷ flags) kept out = suppress threshold ds flags kept out
  suppress threshold (a ∷ ds) (false ∷ flags) kept out = elim (leb meta_max_objects kept) [
    | true ↦ (out, true)
    | false ↦
        suppress threshold ds (mark threshold a ds flags) (kept + 1) (out ++ (to_object F a ∷ []))
  ]

  -- yolo_parse: the objects and `truncated`. `sort` is what std::sort leaves, by falling score.
  unfoldable pub yolo_parse :
      (List Det → List Det) → (ℕ → F32) → YoloParams → LetterboxInfo → List DetObject × Bool
  yolo_parse sort output p lb =
      let cands = sort (candidates output p lb p.num_proposals 0) in
      suppress p.iou_threshold cands (replicate (length cands) false) 0 []
