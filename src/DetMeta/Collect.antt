-- ===== src/DetMeta/Collect.antt =====
-- nvmm_frame_meta_from_nvds against a plain description of the record that it writes.
use mathlib.Core.List.{append-nil, append_assoc}
use native.Mathlib.Numerals.{add-one}
use gst_nvmm_cpp.Common.{
  Bool-cases, inl, inr, ℕ, zero, suc, ◌+◌, ◌-◌, ◌≤◌, ◌<◌, ◌≡◌, refl, ap, ◌∙◌, List, [], ◌∷◌, ◌++◌,
  map, Option, none, some, min, set, take, length, leb, arith, take-set, length-set,
}
use gst_nvmm_cpp.Ipc.Protocol.{DetObject, FrameMeta, meta_max_objects}
use gst_nvmm_cpp.DetMeta.{NvObject, to_det_object, collect}

-- The objects that are there, in order.
unfoldable pub present : List (Option NvObject) → List NvObject
present [] = []
present (none ∷ l) = present l
present (some obj ∷ l) = obj ∷ present l

abbrev pub wire : List (Option NvObject) → List DetObject
wire l = map to_det_object (present l)

pub length-wire : (l : List (Option NvObject)) → length (wire l) ≡ length (present l)
unfolding present
length-wire [] = refl
length-wire (none ∷ l) = length-wire l
length-wire (some obj ∷ l) = ap suc (length-wire l)

pub record Collected (l : List (Option NvObject)) (n : ℕ) (out : FrameMeta) (r : ℕ × FrameMeta)
    : Type 0 where
  pub count : r.0 ≡ min meta_max_objects (n + length (present l))
  pub room : length r.1.objects ≡ length out.objects
  pub header :
      (r.1.frame_number ≡ out.frame_number)
      × (r.1.infer_width ≡ out.infer_width)
      × (r.1.infer_height ≡ out.infer_height)
  pub objects : take r.0 r.1.objects ≡ take n out.objects ++ take (meta_max_objects - n) (wire l)

full-Collected :
    (l : List (Option NvObject)) (n : ℕ) (out : FrameMeta) (flags : ℕ)
    → n ≡ meta_max_objects
    → Collected l n out (n, record out { flags = flags })
full-Collected l n out flags h = record {
  count = omega arith;
  room = refl;
  header = (refl, refl, refl);
  objects = rw (h, append-nil);
}

take-next :
    (n : ℕ) (x : DetObject) (xs : List DetObject)
    → n < meta_max_objects
    → take (meta_max_objects - n) (x ∷ xs) ≡ x ∷ take (meta_max_objects - (n + 1)) xs
take-next n x xs h =
    let e : meta_max_objects - n ≡ suc (meta_max_objects - (n + 1)) = omega arith in rw e

take-nil : (n : ℕ) → take {A = DetObject} n [] ≡ []
take-nil zero = refl
take-nil (suc n) = refl

written :
    (obj : NvObject) (l : List (Option NvObject)) (n : ℕ) (out : FrameMeta) {r : ℕ × FrameMeta}
    → n < meta_max_objects
    → length out.objects ≡ meta_max_objects
    → Collected l (n + 1) (record out { objects = set out.objects n (to_det_object obj) }) r
    → Collected (some obj ∷ l) n out r
unfolding present
written obj l n out {r} lt room c = record {
  count = omega (arith, c.count);
  room = c.room ∙ length-set out.objects n (to_det_object obj);
  header = c.header;
  objects =
      c.objects
      ∙ rw
          (
            take-next n (to_det_object obj) (wire l) lt,
            add-one n,
            take-set out.objects n (to_det_object obj) (omega arith),
          )
          (append_assoc (take n out.objects) (to_det_object obj ∷ []) _);
}

pub collect-Collected :
    (l : List (Option NvObject)) (n : ℕ) (out : FrameMeta)
    → n ≤ meta_max_objects
    → length out.objects ≡ meta_max_objects
    → Collected l n out (collect l n out)
unfolding collect present
collect-Collected [] n out h room = record {
  count = omega arith;
  room = refl;
  header = (refl, refl, refl);
  objects = rw (take-nil (meta_max_objects - n), append-nil);
}
collect-Collected (none ∷ l) n out h room = elim (Bool-cases (leb meta_max_objects n)) [
  | inl full ↦ rw full (full-Collected (none ∷ l) n out _ (ground arith))
  | inr more ↦ rw more (
      let c = collect-Collected l n out h room in
      record { count = c.count; room = c.room; header = c.header; objects = c.objects })
]
collect-Collected (some obj ∷ l) n out h room = elim (Bool-cases (leb meta_max_objects n)) [
  | inl full ↦ rw full (full-Collected (some obj ∷ l) n out _ (ground arith))
  | inr more ↦ rw more (
      written obj l n out (ground arith) room (
        collect-Collected l (n + 1) _ (ground arith)
          (length-set out.objects n (to_det_object obj) ∙ room)))
]
