-- ===== src/Tracker/Match.antt =====
-- Which track an object continues (gst/nvmmtracker/tracker.cpp).
use native.Mathlib.Nat.{zero-add}
use gst_nvmm_cpp.Common.{
  ℕ, zero, suc, ◌+◌, ◌≡◌, refl, ◌⊎◌, inl, inr, List, [], ◌∷◌, ◌++◌, Option, none, some, Bool, true,
  false, get_elem?, arith, Bool-cases, Option-cases, subst, set, ◌%◌, ◌^◌,
}
use gst_nvmm_cpp.Common.Int.{ℤ, pos, negsuc, eq_ℤ}
use gst_nvmm_cpp.Common.Float.{F32, FloatOps}
use gst_nvmm_cpp.Ipc.Protocol.{DetObject}
use gst_nvmm_cpp.Tracker.{
  Track, Marked, overlap, skips, best_match, match_at, track_object, take_box, new_track,
}

eq_ℤ-eq : (a b : ℤ) → eq_ℤ a b ≡ true → a ≡ b
eq_ℤ-eq (pos a) (pos b) h = ground arith
eq_ℤ-eq (pos a) (negsuc b) h = cc
eq_ℤ-eq (negsuc a) (pos b) h = cc
eq_ℤ-eq (negsuc a) (negsuc b) h = ground arith

module _ (F : FloatOps)
    (trans : (a b c : F32) → F.le a b ≡ true → F.le b c ≡ true → F.le a c ≡ true) (o : DetObject)
    (threshold : F32) where
  -- Track number `r - k` of the list may be continued by the object.
  abbrev pub Eligible : List Marked → ℕ → ℕ → Type 0
  Eligible ts k r =
      (i : ℕ) × (t : Track) × (r ≡ k + i)
      × (get_elem? ts i ≡ some (t, false))
      × (t.class_id ≡ o.class_id)
      × (F.le threshold (overlap F o t) ≡ true)

  abbrev Reached : F32 → Type 0
  Reached best_iou = (best_iou ≡ threshold) ⊎ (F.le threshold best_iou ≡ true)

  eligible :
      (t : Marked) (best_iou : F32)
      → skips F o t ≡ false
      → Reached best_iou
      → F.le best_iou (overlap F o t.0) ≡ true
      → (t.1 ≡ false) × (t.0.class_id ≡ o.class_id) × (F.le threshold (overlap F o t.0) ≡ true)
  eligible (t, true) best_iou s r l = cc
  eligible (t, false) best_iou s r l = (refl, eq_ℤ-eq t.class_id o.class_id (ground arith), above r)
    where
      above : Reached best_iou → F.le threshold (overlap F o t) ≡ true
      above (inl e) = subst (λ x. F.le x (overlap F o t) ≡ true) e l
      above (inr e) = trans threshold best_iou (overlap F o t) e l

  Eligible-later :
      (t : Marked) (ts : List Marked) (k r : ℕ) → Eligible ts (k + 1) r → Eligible (t ∷ ts) k r
  Eligible-later t ts k r (i, u, e, at, c, l) = (suc i, u, omega arith, at, c, l)

  best_match_from :
      (ts : List Marked) (k : ℕ) (best : Option ℕ) (best_iou : F32) (r : ℕ)
      → Reached best_iou
      → best_match F o ts k best best_iou ≡ some r
      → (best ≡ some r) ⊎ Eligible ts k r
  unfolding best_match
  best_match_from [] k best best_iou r q e = inl e
  best_match_from (t ∷ ts) k best best_iou r q e = elim (Bool-cases (skips F o t)) [
    | inl s ↦ skipped (best_match_from ts (k + 1) best best_iou r q (rw s at e))
    | inr s ↦ elim (Bool-cases (F.le best_iou (overlap F o t.0))) [
      | inr l ↦ skipped (best_match_from ts (k + 1) best best_iou r q (rw (l) at (rw s at e)))
      | inl l ↦
          let f = eligible t best_iou s q l in
          found f (
            best_match_from ts (k + 1) (some k) (overlap F o t.0) r (inr f.2) (rw l at (rw s at e)))
    ]
  ]
    where
      skipped : (best ≡ some r) ⊎ Eligible ts (k + 1) r → (best ≡ some r) ⊎ Eligible (t ∷ ts) k r
      skipped (inl h) = inl h
      skipped (inr h) = inr (Eligible-later t ts k r h)

      found :
          (t.1 ≡ false) × (t.0.class_id ≡ o.class_id) × (F.le threshold (overlap F o t.0) ≡ true)
          → (some k ≡ some r) ⊎ Eligible ts (k + 1) r
          → (best ≡ some r) ⊎ Eligible (t ∷ ts) k r
      found (m, c, l) (inl h) = inr (0, t.0, ground arith, ground arith, c, l)
      found f (inr h) = inr (Eligible-later t ts k r h)

  match_at_eq :
      (i : ℕ) (ts : List Marked) (t : Track) (m : Bool)
      → get_elem? ts i ≡ some (t, m)
      → match_at F o i ts ≡ (record o { tracker_id = t.id }, set ts i (take_box F o t, true))
  unfolding match_at
  match_at_eq i [] t m e = cc
  match_at_eq zero (u ∷ ts) t m e = ground arith
  match_at_eq (suc i) (u ∷ ts) t m e = ground (arith, match_at_eq i ts t m e)

  -- The object starts a track under the next identifier.
  abbrev pub Starts : List Marked → ℕ → DetObject × List Marked × ℕ → Type 0
  Starts ts next_id out = out ≡ (
    record o { tracker_id = next_id },
    ts ++ ((new_track F o next_id, true) ∷ []),
    (next_id + 1) % 2 ^ 64,
  )

  -- The object continues a track that no object of this frame has taken, of its own class, and whose
  -- box it overlaps by the threshold at least.
  abbrev pub Continues : List Marked → ℕ → DetObject × List Marked × ℕ → Type 0
  Continues ts next_id out =
      (i : ℕ) × (t : Track) × (get_elem? ts i ≡ some (t, false))
      × (t.class_id ≡ o.class_id)
      × (F.le threshold (overlap F o t) ≡ true)
      × (out ≡ (record o { tracker_id = t.id }, set ts i (take_box F o t, true), next_id))

  track_object-Starts :
      (ts : List Marked) (next_id : ℕ)
      → best_match F o ts 0 none threshold ≡ none
      → Starts ts next_id (track_object F threshold o ts next_id)
  unfolding track_object
  track_object-Starts ts next_id e = simp (e, track_object)

  track_object_matched :
      (ts : List Marked) (next_id r : ℕ)
      → best_match F o ts 0 none threshold ≡ some r
      → track_object F threshold o ts next_id
        ≡ (let (o', ts') = match_at F o r ts in (o', ts', next_id))
  unfolding track_object
  track_object_matched ts next_id r e = simp (e, track_object)

  -- An object either starts a track or continues one; nothing else changes.
  pub track_object_cases :
      (ts : List Marked) (next_id : ℕ)
      → Starts ts next_id (track_object F threshold o ts next_id)
        ⊎ Continues ts next_id (track_object F threshold o ts next_id)
  track_object_cases ts next_id = elim (Option-cases (best_match F o ts 0 none threshold)) [
    | inl e ↦ inl (track_object-Starts ts next_id e)
    | inr (r, e) ↦ inr (
        rw (track_object_matched ts next_id r e)
          (matched r (best_match_from ts 0 none threshold r (inl refl) e)))
  ]
    where
      matched :
          (r : ℕ)
          → (none ≡ some r) ⊎ Eligible ts 0 r
          → Continues ts next_id (let (o', ts') = match_at F o r ts in (o', ts', next_id))
      matched r (inl h) = cc
      matched r (inr (i, t, e, at, c, l)) =
          (i, t, at, c, l, rw (e, zero-add, match_at_eq i ts t false at))
