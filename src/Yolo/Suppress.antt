-- ===== src/Yolo/Suppress.antt =====
-- gst/nvmminfer/yolo_parser.cpp: the suppression loop with its flags against a list of what was kept.
use gst_nvmm_cpp.Common.{
  ℕ, zero, suc, ◌+◌, ◌<◌, ◌≡◌, refl, ap, List, [], ◌∷◌, ◌++◌, Bool, true, false, ◌||◌, ◌&&◌, not,
  All, take, length, map, ltb, if◌then◌else◌, Bool-cases, arith, inl, inr, All-take,
}
use gst_nvmm_cpp.Common.Float.{F32, FloatOps}
use gst_nvmm_cpp.Ipc.Protocol.{DetObject, meta_max_objects}
use gst_nvmm_cpp.Yolo.{Det, conflicts, mark, suppress, to_object}

module _ (F : FloatOps) (threshold : F32) where
  -- Whether a kept box suppresses `c`.
  abbrev pub hit : List Det → Det → Bool
  hit [] c = false
  hit (a ∷ kept) c = conflicts F threshold a c || hit kept c

  -- Without flags: a box is kept if no box that was kept before suppresses it.
  unfoldable pub survivors : List Det → List Det → List Det
  survivors kept [] = []
  survivors kept (c ∷ cs) = elim (hit kept c) [
    | true ↦ survivors kept cs
    | false ↦ c ∷ survivors (c ∷ kept) cs
  ]

  survivors-hit :
      (kept : List Det) (c : Det) (cs : List Det)
      → hit kept c ≡ true
      → survivors kept (c ∷ cs) ≡ survivors kept cs
  unfolding survivors
  survivors-hit kept c cs e = ground (arith, e)

  survivors-kept :
      (kept : List Det) (c : Det) (cs : List Det)
      → hit kept c ≡ false
      → survivors kept (c ∷ cs) ≡ c ∷ survivors (c ∷ kept) cs
  unfolding survivors
  survivors-kept kept c cs e = ground (arith, e)

  marked : (a b : Bool) → (if not a && b then true else a) ≡ (b || a)
  marked a b = ground arith

  mark-hit :
      (a : Det) (kept ds : List Det)
      → mark F threshold a ds (map (hit kept) ds) ≡ map (hit (a ∷ kept)) ds
  unfolding mark
  mark-hit a kept [] = refl
  mark-hit a kept (d ∷ ds) =
      rw (mark-hit a kept ds, marked (hit kept d) (conflicts F threshold a d)) refl

  suppress-flagged :
      (a : Det) (ds : List Det) (removed : Bool) (flags : List Bool) (n : ℕ) (out : List DetObject)
      → removed ≡ true
      → suppress F threshold (a ∷ ds) (removed ∷ flags) n out ≡ suppress F threshold ds flags n out
  unfolding suppress
  suppress-flagged a ds removed flags n out e = rw e refl

  suppress-full :
      (a : Det) (ds : List Det) (removed : Bool) (flags : List Bool) (out : List DetObject)
      → removed ≡ false
      → suppress F threshold (a ∷ ds) (removed ∷ flags) meta_max_objects out ≡ (out, true)
  unfolding suppress
  suppress-full a ds removed flags out e = rw e refl

  suppress-room :
      (a : Det) (ds : List Det) (removed : Bool) (flags : List Bool) (n : ℕ) (out : List DetObject)
      → removed ≡ false
      → n < meta_max_objects
      → suppress F threshold (a ∷ ds) (removed ∷ flags) n out
        ≡ suppress F threshold ds
            (mark F threshold a ds flags)
            (n + 1)
            (out ++ (to_object F a ∷ []))
  unfolding suppress
  suppress-room a ds removed flags n out e h = ground (arith, e, h)

  -- The objects and the truncation, with room for `room` more.
  abbrev filled : ℕ → List DetObject → List Det → List DetObject × Bool
  filled room out ds = (out ++ map (to_object F) (take room ds), ltb room (length ds))

  append_cons :
      (out rest : List DetObject) (o : DetObject) → (out ++ (o ∷ [])) ++ rest ≡ out ++ (o ∷ rest)
  append_cons [] rest o = refl
  append_cons (x ∷ out) rest o = ap (◌∷◌ x) (append_cons out rest o)

  append_nil : (out : List DetObject) → out ++ [] ≡ out
  append_nil [] = refl
  append_nil (x ∷ out) = ap (◌∷◌ x) (append_nil out)

  ltb-suc : (a b : ℕ) → ltb a b ≡ ltb (suc a) (suc b)
  ltb-suc a b = ground arith

  filled_full :
      (out : List DetObject) (d : Det) (ds : List Det) → filled 0 out (d ∷ ds) ≡ (out, true)
  filled_full out d ds = rw (append_nil out) (ap (λ b. (out, b)) (ground arith))

  filled_nil : (room : ℕ) (out : List DetObject) → (out, false) ≡ filled room out []
  filled_nil zero out = rw (append_nil out) refl
  filled_nil (suc room) out = rw (append_nil out) (ap (λ b. (out, b)) (ground arith))

  suppress_nil :
      (flags : List Bool) (n : ℕ) (out : List DetObject)
      → suppress F threshold [] flags n out ≡ (out, false)
  unfolding suppress
  suppress_nil flags n out = refl

  survivors_nil : (kept : List Det) → survivors kept [] ≡ []
  unfolding survivors
  survivors_nil kept = refl

  filled-cons :
      (room : ℕ) (out : List DetObject) (d : Det) (ds : List Det)
      → filled room (out ++ (to_object F d ∷ [])) ds ≡ filled (suc room) out (d ∷ ds)
  filled-cons room out d ds =
      rw (append_cons out (map (to_object F) (take room ds)) (to_object F d)) (
        ap (λ b. (out ++ (to_object F d ∷ map (to_object F) (take room ds)), b))
          (ltb-suc room (length ds)))

  -- The loop, from any flags that stand for a list of kept boxes.
  pub suppress-survivors :
      (room : ℕ) (kept ds : List Det) (n : ℕ) (out : List DetObject)
      → n + room ≡ meta_max_objects
      → suppress F threshold ds (map (hit kept) ds) n out ≡ filled room out (survivors kept ds)
  suppress-survivors room kept [] n out e =
      rw (suppress_nil [] n out, survivors_nil kept) (filled_nil room out)
  suppress-survivors room kept (d ∷ ds) n out e = elim (Bool-cases (hit kept d)) [
    | inl h ↦
        rw
          (
            survivors-hit kept d ds h,
            suppress-flagged d ds (hit kept d) (map (hit kept) ds) n out h,
          )
          (suppress-survivors room kept ds n out e)
    | inr h ↦ rw (survivors-kept kept d ds h) (
        by room e h (λ r. suppress-survivors r (d ∷ kept) ds (n + 1) (out ++ (to_object F d ∷ []))))
  ]
    where
      by :
          (room : ℕ)
          → n + room ≡ meta_max_objects
          → hit kept d ≡ false
          → ((r : ℕ)
              → n + 1 + r ≡ meta_max_objects
              → suppress F threshold ds
                  (map (hit (d ∷ kept)) ds)
                  (n + 1)
                  (out ++ (to_object F d ∷ []))
                ≡ filled r (out ++ (to_object F d ∷ [])) (survivors (d ∷ kept) ds))
          → suppress F threshold (d ∷ ds) (map (hit kept) (d ∷ ds)) n out
            ≡ filled room out (d ∷ survivors (d ∷ kept) ds)
      by zero e h later =
          let full : n ≡ meta_max_objects = omega arith in
          rw (full, filled_full out d (survivors (d ∷ kept) ds))
            (suppress-full d ds (hit kept d) (map (hit kept) ds) out h)
      by (suc room) e h later =
          rw
            (
              suppress-room d ds (hit kept d) (map (hit kept) ds) n out h (omega arith),
              mark-hit d kept ds,
              ← filled-cons room out d (survivors (d ∷ kept) ds),
            )
            (later room (omega arith))

  -- No two of the list conflict.
  abbrev pub Apart : List Det → Type 0
  Apart [] = Unit
  Apart (d ∷ ds) = All (λ e. conflicts F threshold d e ≡ false) ds × Apart ds

  abbrev Suppresses : Det → List Det → Type 0
  Suppresses a kept = (c : Det) → hit kept c ≡ false → conflicts F threshold a c ≡ false

  or_false : (a b : Bool) → (a || b) ≡ false → (a ≡ false) × (b ≡ false)
  or_false a b e = ground (arith, e)

  survivors-clear :
      (a : Det) (kept ds : List Det)
      → Suppresses a kept
      → All (λ e. conflicts F threshold a e ≡ false) (survivors kept ds)
  survivors-clear a kept [] c = rw (survivors_nil kept) tt
  survivors-clear a kept (d ∷ ds) c = elim (Bool-cases (hit kept d)) [
    | inl h ↦ rw (survivors-hit kept d ds h) (survivors-clear a kept ds c)
    | inr h ↦
        rw (survivors-kept kept d ds h)
          (c d h, survivors-clear a (d ∷ kept) ds (λ e q. c e (or_false _ _ q).1))
  ]

  pub survivors-Apart : (kept ds : List Det) → Apart (survivors kept ds)
  survivors-Apart kept [] = rw (survivors_nil kept) tt
  survivors-Apart kept (d ∷ ds) = elim (Bool-cases (hit kept d)) [
    | inl h ↦ rw (survivors-hit kept d ds h) (survivors-Apart kept ds)
    | inr h ↦
        rw (survivors-kept kept d ds h) (
          survivors-clear d (d ∷ kept) ds (λ e q. (or_false _ _ q).0),
          survivors-Apart (d ∷ kept) ds,
        )
  ]

  pub survivors-All : (P : Det → Type 0) (kept ds : List Det) → All P ds → All P (survivors kept ds)
  survivors-All P kept [] a = rw (survivors_nil kept) tt
  survivors-All P kept (d ∷ ds) a = elim (Bool-cases (hit kept d)) [
    | inl h ↦ rw (survivors-hit kept d ds h) (survivors-All P kept ds a.1)
    | inr h ↦ rw (survivors-kept kept d ds h) (a.0, survivors-All P (d ∷ kept) ds a.1)
  ]

  pub Apart-take : (n : ℕ) (ds : List Det) → Apart ds → Apart (take n ds)
  Apart-take zero ds a = tt
  Apart-take (suc n) [] a = tt
  Apart-take (suc n) (d ∷ ds) a = (All-take _ n ds a.0, Apart-take n ds a.1)
