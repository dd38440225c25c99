-- ===== src/Yolo/Candidates.antt =====
-- gst/nvmminfer/yolo_parser.cpp: what yolo_parse hands out.
use gst_nvmm_cpp.Common.{
  ℕ, zero, suc, ◌+◌, ◌*◌, ◌≤◌, ◌<◌, ◌≡◌, refl, ap, ◌∙◌, sym, List, [], ◌∷◌, Option, none, some,
  Bool, true, false, ◌||◌, All, All-take, take, length, length-take, replicate, map, ltb,
  if◌then◌else◌, arith,
}
use gst_nvmm_cpp.Common.Float.{F32, FloatOps}
use gst_nvmm_cpp.Ipc.Protocol.{meta_max_objects}
use gst_nvmm_cpp.Yolo.{
  Det, YoloParams, LetterboxInfo, best_class, box_of, candidate, candidates, push_back, to_object,
  yolo_parse,
}
use gst_nvmm_cpp.Yolo.Suppress.{
  hit, survivors, suppress-survivors, Apart, survivors-Apart, survivors-All, Apart-take,
}

-- Documented of std::sort: it permutes the elements, so none comes from elsewhere.
abbrev pub Permutes : (List Det → List Det) → Type 1
Permutes sort = (P : Det → Type 0) (ds : List Det) → All P ds → All P (sort ds)

-- `<` on binary32 is transitive, at NaNs too.
abbrev pub IsTransitive : FloatOps → Type 0
IsTransitive F = (a b c : F32) → F.lt a b ≡ true → F.lt b c ≡ true → F.lt a c ≡ true

-- A detection of a known class, above the threshold, whose box is not empty.
pub record IsDetection (F : FloatOps) (p : YoloParams) (d : Det) : Type 0 where
  pub known : d.cls < p.num_classes
  pub confident : F.lt p.conf_threshold d.score ≡ true
  pub wide : F.le d.x2 d.x1 ≡ false
  pub high : F.le d.y2 d.y1 ≡ false

module _ (F : FloatOps) where
  no_flags :
      (threshold : F32) (ds : List Det) → replicate (length ds) false ≡ map (hit F threshold []) ds
  no_flags threshold [] = refl
  no_flags threshold (d ∷ ds) = ap (◌∷◌ false) (no_flags threshold ds)

  -- The loop with flags hands out the first 256 of the boxes that a filter without flags keeps, which
  -- compares each box with those kept before it; and the list is truncated just when the filter keeps more.
  pub yolo_parse-survivors :
      (sort : List Det → List Det) (output : ℕ → F32) (p : YoloParams) (lb : LetterboxInfo)
      → let kept =
          survivors F p.iou_threshold [] (sort (candidates F output p lb p.num_proposals 0)) in
        yolo_parse F sort output p lb
        ≡ (map (to_object F) (take meta_max_objects kept), ltb meta_max_objects (length kept))
  unfolding yolo_parse
  yolo_parse-survivors sort output p lb =
      rw (no_flags p.iou_threshold (sort (candidates F output p lb p.num_proposals 0))) (
        suppress-survivors F p.iou_threshold meta_max_objects []
          (sort (candidates F output p lb p.num_proposals 0)) 0 [] (omega arith))

  -- The best class so far: none, at the threshold itself, or one above it.
  abbrev Best : YoloParams → Option ℕ → F32 → Type 0
  Best p none s = s ≡ p.conf_threshold
  Best p (some c) s = (c < p.num_classes) × (F.lt p.conf_threshold s ≡ true)

  Best-better :
      IsTransitive F
      → (p : YoloParams) (k : ℕ) (best : Option ℕ) (s s' : F32) (better : Bool) → F.lt s s' ≡ better
      → k < p.num_classes
      → Best p best s
      → Best p (if better then some k else best) (if better then s' else s)
  Best-better trans p k best s s' false e h b = b
  Best-better trans p k none s s' true e h b = (h, ap (λ z. F.lt z s') (sym b) ∙ e)
  Best-better trans p k (some c) s s' true e h b = (h, trans p.conf_threshold s s' b.1 e)

  best_class-Best :
      IsTransitive F
      → (output : ℕ → F32) (p : YoloParams) (n i c k : ℕ) (best : Option ℕ) (s : F32)
      → k + c ≡ p.num_classes
      → Best p best s
      → let (best', s') = best_class F output n i c k best s in Best p best' s'
  unfolding best_class
  best_class-Best trans output p n i zero k best s e b = b
  best_class-Best trans output p n i (suc c) k best s e b =
      best_class-Best trans output p n i c (k + 1) _ _ (omega arith)
        (Best-better trans p k best s (output ((4 + k) * n + i)) _ refl (omega arith) b)

  abbrev Found : YoloParams → Option Det → Type 0
  Found p none = Unit
  Found p (some d) = IsDetection F p d

  boxed :
      (p : YoloParams) (d : Det) (narrow low : Bool)
      → F.le d.x2 d.x1 ≡ narrow
      → F.le d.y2 d.y1 ≡ low
      → d.cls < p.num_classes
      → F.lt p.conf_threshold d.score ≡ true
      → Found p (if narrow || low then none else some d)
  boxed p d true low e f k c = tt
  boxed p d false true e f k c = tt
  boxed p d false false e f k c = record { known = k; confident = c; wide = e; high = f }

  box_of-Found :
      (output : ℕ → F32) (p : YoloParams) (lb : LetterboxInfo) (n i cls : ℕ) (score : F32)
      → cls < p.num_classes
      → F.lt p.conf_threshold score ≡ true
      → Found p (box_of F output n lb i cls score)
  unfolding box_of
  box_of-Found output p lb n i cls score k c = boxed p _ _ _ refl refl k c

  candidate-Found :
      IsTransitive F
      → (output : ℕ → F32) (p : YoloParams) (lb : LetterboxInfo) (i : ℕ)
      → Found p (candidate F output p lb i)
  unfolding candidate
  candidate-Found trans output p lb i =
      by (best_class F output p.num_proposals i p.num_classes 0 none p.conf_threshold) (
        best_class-Best trans output p p.num_proposals i p.num_classes 0 none p.conf_threshold
          (omega arith) refl)
    where
      by :
          (b : Option ℕ × F32)
          → Best p b.0 b.1
          → Found p (elim b.0 [ none ↦ none | some k ↦ box_of F output p.num_proposals lb i k b.1 ])
      by (none, s) h = tt
      by (some k, s) h = box_of-Found output p lb p.num_proposals i k s h.0 h.1

  candidates-All :
      IsTransitive F
      → (output : ℕ → F32) (p : YoloParams) (lb : LetterboxInfo) (n i : ℕ)
      → All (IsDetection F p) (candidates F output p lb n i)
  unfolding candidates
  candidates-All trans output p lb zero i = tt
  candidates-All trans output p lb (suc n) i =
      by (candidate F output p lb i) (candidates F output p lb n (i + 1))
        (candidate-Found trans output p lb i) (candidates-All trans output p lb n (i + 1))
    where
      by :
          (o : Option Det) (ds : List Det)
          → Found p o
          → All (IsDetection F p) ds
          → All (IsDetection F p) (push_back F o ds)
      by none ds f a = a
      by (some d) ds f a = (f, a)

  -- The objects that yolo_parse hands out stand for at most 256 detections, each of a known class, with
  -- a score above the threshold and a box that is not empty, and no one of them suppresses a later one:
  -- those of one class do not overlap beyond the threshold.
  pub yolo_parse-IsDetection :
      (sort : List Det → List Det) (output : ℕ → F32) (p : YoloParams) (lb : LetterboxInfo)
      → Permutes sort
      → IsTransitive F
      → (ds : List Det) × ((yolo_parse F sort output p lb).0 ≡ map (to_object F) ds)
        × (length ds ≤ meta_max_objects)
        × All (IsDetection F p) ds
        × Apart F p.iou_threshold ds
  yolo_parse-IsDetection sort output p lb perm trans =
      let cands = sort (candidates F output p lb p.num_proposals 0) in
      let kept = survivors F p.iou_threshold [] cands in
      (
        take meta_max_objects kept,
        ap (λ x. x.0) (yolo_parse-survivors sort output p lb),
        omega (arith, length-take meta_max_objects kept),
        All-take (IsDetection F p) meta_max_objects kept (
            survivors-All F p.iou_threshold (IsDetection F p) [] cands
              (perm (IsDetection F p) _ (candidates-All trans output p lb p.num_proposals 0))),
        Apart-take F p.iou_threshold meta_max_objects kept
            (survivors-Apart F p.iou_threshold [] cands),
      )
