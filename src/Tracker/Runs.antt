-- ===== src/Tracker/Runs.antt =====
-- Streams of buffers through the element (gst/nvmmtracker/gstnvmmtracker.cpp).
use gst_nvmm_cpp.Common.{
  ℕ, zero, suc, ◌+◌, ◌^◌, ◌<◌, ◌≤◌, ◌≡◌, refl, ap, sym, subst, ==_iff, List, [], ◌∷◌, ◌++◌, Option,
  none, some, Bool, true, false, not, take, length, All, ◌==◌, if◌then◌else◌, arith, Bool-cases,
  inl, inr, map,
}
use gst_nvmm_cpp.Common.Float.{F32, FloatOps}
use gst_nvmm_cpp.Ipc.Protocol.{DetObject}
use gst_nvmm_cpp.DetMeta.{BufferMeta}
use gst_nvmm_cpp.Gate.Element.{F64}
use gst_nvmm_cpp.Tracker.{Tracker, Marked, unmarked, track_objects, update}
use gst_nvmm_cpp.Tracker.Frames.{IsNumbered, DistinctIds, update_ids}
use gst_nvmm_cpp.Tracker.Element.{
  TrackerElement, start, drop, track_meta, track_buffer, transform_ip,
}

-- Whether the buffer has detections.
abbrev pub occupied : Option BufferMeta → Bool
occupied none = false
occupied (some m) = not (m.num_objects == 0)

abbrev pub occupied_only : List (Option BufferMeta) → List (Option BufferMeta)
occupied_only [] = []
occupied_only (b ∷ bs) = let rest = occupied_only bs in if occupied b then b ∷ rest else rest

-- The detections that a buffer carries.
abbrev pub IdsApart : Option BufferMeta → Type 0
IdsApart none = Unit
IdsApart (some m) = DistinctIds (take m.num_objects m.objects)

abbrev pub objects_in : Option BufferMeta → ℕ
objects_in none = 0
objects_in (some m) = m.num_objects

abbrev pub total : List (Option BufferMeta) → ℕ
total [] = 0
total (b ∷ bs) = objects_in b + total bs

take-le : (n : ℕ) (xs : List DetObject) → length (take n xs) ≤ n
take-le zero xs = omega arith
take-le (suc n) [] = omega arith
take-le (suc n) (x ∷ xs) = omega (arith, take-le n xs)

take_again :
    (n : ℕ) (xs ys : List DetObject)
    → length ys ≡ length (take n xs)
    → take n (ys ++ drop n xs) ≡ ys
take_again zero xs [] h = refl
take_again zero xs (y ∷ ys) h = absurd (omega arith)
take_again (suc n) [] [] h = refl
take_again (suc n) [] (y ∷ ys) h = absurd (omega arith)
take_again (suc n) (x ∷ xs) [] h = absurd (omega arith)
take_again (suc n) (x ∷ xs) (y ∷ ys) h = ap (◌∷◌ y) (take_again n xs ys (omega arith))

module _ (F : FloatOps) where
  length-track_objects :
      (t : F32) (os : List DetObject) (ts : List Marked) (n : ℕ)
      → length (track_objects F t os ts n).0 ≡ length os
  unfolding track_objects
  length-track_objects t [] ts n = refl
  length-track_objects t (o ∷ os) ts n = omega (arith, length-track_objects t os)

  length-update : (t : Tracker) (os : List DetObject) → length (update F t os).0 ≡ length os
  unfolding update
  length-update t os =
      length-track_objects t.params.iou_threshold os (map unmarked t.tracks) t.next_id

  -- The buffers in their order: what leaves the element, and the element after them.
  unfoldable pub run :
      List (Option BufferMeta) → TrackerElement → List (Option BufferMeta) × TrackerElement
  run [] s = ([], s)
  run (b ∷ bs) s =
      let (b', s') = transform_ip F b s in let (rest, s'') = run bs s' in (b' ∷ rest, s'')

  transform_ip-idle :
      (b : Option BufferMeta) (s : TrackerElement)
      → occupied b ≡ false
      → transform_ip F b s ≡ (b, s)
  unfolding transform_ip
  transform_ip-idle b s h = by s.tracker b h
    where
      by :
          (t : Option Tracker) (b : Option BufferMeta)
          → occupied b ≡ false
          → track_buffer F t b s ≡ (b, s)
      by none b h = refl
      by (some t) none h = refl
      by (some t) (some m) h = ground arith

  -- Buffers without detections leave no trace: the detections that leave on the others, and the element
  -- at the end, with its tracks and their ages, are those of the stream without them.
  pub run-occupied_only :
      (bs : List (Option BufferMeta)) (s : TrackerElement)
      → let (out, s') = run bs s in
        let (out', s'') = run (occupied_only bs) s in
        (occupied_only out ≡ occupied_only out') × (s' ≡ s'')
  unfolding run
  run-occupied_only [] s = (refl, refl)
  run-occupied_only (b ∷ bs) s = elim (Bool-cases (occupied b)) [
    | inl e ↦
        let (same, end) = run-occupied_only bs (transform_ip F b s).1 in
        rw e (
          ap
              (λ rest.
                if occupied (transform_ip F b s).0 then (transform_ip F b s).0 ∷ rest else rest)
              same,
          end,
        )
    | inr e ↦ rw (transform_ip-idle b s e, e) (run-occupied_only bs s)
  ]

  module _ (trans : (a b c : F32) → F.le a b ≡ true → F.le b c ≡ true → F.le a c ≡ true) where
    -- A numbered tracker, with room for `room` objects.
    record Runs (room : ℕ) (s : TrackerElement) : Type 0 where
      tracker : Tracker
      held : s.tracker ≡ some tracker
      numbered : IsNumbered tracker
      roomy : tracker.next_id + room < 2 ^ 64

    tracked_meta :
        (t : Tracker) (m : BufferMeta) (room : ℕ) (s : TrackerElement)
        → IsNumbered t
        → t.next_id + (m.num_objects + room) < 2 ^ 64
        → let (m', t') = track_meta F t m in
          IdsApart (some m') × Runs room (record s { tracker = some t' })
    unfolding track_meta
    tracked_meta t m room s num fits =
        let short = take-le m.num_objects m.objects in
        let (num', apart, low, high) =
          update_ids F trans t (take m.num_objects m.objects) (omega (arith, short)) num in
        (
          subst DistinctIds
              (sym (
                take_again m.num_objects m.objects _
                  (length-update t (take m.num_objects m.objects))))
              apart,
          record { tracker = _; held = refl; numbered = num'; roomy = omega (arith, short, high) },
        )

    track_buffer-Runs :
        (b : Option BufferMeta) (t : Tracker) (room : ℕ) (s : TrackerElement)
        → s.tracker ≡ some t
        → IsNumbered t
        → t.next_id + (objects_in b + room) < 2 ^ 64
        → let (b', s') = track_buffer F (some t) b s in IdsApart b' × Runs room s'
    track_buffer-Runs none t room s h num fits =
        (tt, record { tracker = t; held = h; numbered = num; roomy = omega arith })
    track_buffer-Runs (some m) t room s h num fits = elim (Bool-cases (m.num_objects == 0)) [
      | inl z ↦ rw z (
        subst (λ n. DistinctIds (take n m.objects)) (sym ((==_iff m.num_objects 0).0 z)) tt,
        record { tracker = t; held = h; numbered = num; roomy = omega arith },
      )
      | inr nz ↦ rw nz (tracked_meta t m room s num fits)
    ]

    transform_ip-Runs :
        (b : Option BufferMeta) (room : ℕ) (s : TrackerElement) (r : Runs (objects_in b + room) s)
        → let (b', s') = transform_ip F b s in IdsApart b' × Runs room s'
    unfolding transform_ip
    transform_ip-Runs b room s r =
        subst (λ o. let (b', s') = track_buffer F o b s in IdsApart b' × Runs room s') (sym r.held)
          (track_buffer-Runs b r.tracker room s r.held r.numbered r.roomy)

    run-apart :
        (bs : List (Option BufferMeta)) (s : TrackerElement)
        → Runs (total bs) s
        → All IdsApart (run bs s).0
    unfolding run
    run-apart [] s r = tt
    run-apart (b ∷ bs) s r =
        let (apart, next) = transform_ip-Runs b (total bs) s r in
        (apart, run-apart bs (transform_ip F b s).1 next)

    -- After start, whatever buffers come, no two detections of a buffer leave the element with the same
    -- identifier. The comparison of overlaps is transitive, and the detections of the stream are
    -- fewer than 2^64 - 1.
    pub run-IdsApart :
        (narrow : F64 → F32) (bs : List (Option BufferMeta)) (s : TrackerElement)
        → 1 + total bs < 2 ^ 64
        → All IdsApart (run bs (start narrow s)).0
    unfolding start
    run-IdsApart narrow bs s h =
        run-apart bs _ (record { tracker = _; held = refl; numbered = omega arith; roomy = h })
