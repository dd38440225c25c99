-- ===== src/Tracker/Frames.antt =====
-- Tracker::update: identifiers over one frame (gst/nvmmtracker/tracker.cpp).
use gst_nvmm_cpp.Common.{
  ℕ, suc, ◌+◌, ◌≤◌, ◌<◌, ◌≡◌, ◌≢◌, refl, ap, ◌⊎◌, inl, inr, List, [], ◌∷◌, ◌++◌, true, false, arith,
  Bool-cases, subst, map, length, ltb, ◌^◌, All,
}
use gst_nvmm_cpp.Common.Float.{F32, FloatOps}
use gst_nvmm_cpp.Ipc.Protocol.{DetObject}
use gst_nvmm_cpp.Tracker.{
  Tracker, Track, Marked, unmarked, track_object, track_objects, take_box, new_track, grow_old,
  update,
}
use gst_nvmm_cpp.Tracker.Match.{track_object_cases}
use gst_nvmm_cpp.Tracker.Ids.{
  ids, Ascending, Ascending-from, ids-set, Ascending-snoc, marked, marked-above, marked-at,
  marked-set, marked-snoc,
}

abbrev pub DistinctIds : List DetObject → Type 0
DistinctIds [] = Unit {0}
DistinctIds (o ∷ os) = All (λ p. p.tracker_id ≢ o.tracker_id) os × DistinctIds os

-- What tracking leaves of the marks that were there, and what it adds.
abbrev Grown : List Marked → List Marked → Type 0
Grown ts ts' = (a : ℕ) → marked a ts ≡ true → marked a ts' ≡ true

record Tracked (ts : List Marked) (n room : ℕ) (out : List DetObject × List Marked × ℕ)
    : Type 0 where
  ascending : Ascending 1 (ids out.1) out.2
  bound : (n ≤ out.2) × (out.2 ≤ n + room)
  fresh : All (λ o. marked o.tracker_id ts ≡ false) out.0
  distinct : DistinctIds out.0
  grown : Grown ts out.1

record TrackedOne (ts : List Marked) (n : ℕ) (out : DetObject × List Marked × ℕ) : Type 0 where
  ascending : Ascending 1 (ids out.1) out.2
  bound : (n ≤ out.2) × (out.2 ≤ n + 1)
  fresh : marked out.0.tracker_id ts ≡ false
  now : marked out.0.tracker_id out.1 ≡ true
  grown : Grown ts out.1

apart :
    (a : ℕ) (ts ts' : List Marked) (os : List DetObject)
    → marked a ts' ≡ true
    → All (λ o. marked o.tracker_id ts' ≡ false) os
    → All (λ o. o.tracker_id ≢ a) os
apart a ts ts' [] m h = tt
apart a ts ts' (o ∷ os) m h =
    (λ e. ground (arith, e, m, h.0, ap (λ x. marked x ts') e), apart a ts ts' os m h.1)

unmarked_before :
    (ts ts' : List Marked) (os : List DetObject)
    → Grown ts ts'
    → All (λ o. marked o.tracker_id ts' ≡ false) os
    → All (λ o. marked o.tracker_id ts ≡ false) os
unmarked_before ts ts' [] g h = tt
unmarked_before ts ts' (o ∷ os) g h =
    (before (Bool-cases (marked o.tracker_id ts)), unmarked_before ts ts' os g h.1)
  where
    before :
        (marked o.tracker_id ts ≡ true) ⊎ (marked o.tracker_id ts ≡ false)
        → marked o.tracker_id ts ≡ false
    before (inl m) = ground (arith, g o.tracker_id m, h.0)
    before (inr m) = m

module _ (F : FloatOps)
    (trans : (a b c : F32) → F.le a b ≡ true → F.le b c ≡ true → F.le a c ≡ true)
    (threshold : F32) where
  track_object-TrackedOne :
      (o : DetObject) (ts : List Marked) (n : ℕ)
      → n + 1 < 2 ^ 64
      → Ascending 1 (ids ts) n
      → TrackedOne ts n (track_object F threshold o ts n)
  track_object-TrackedOne o ts n h s = elim (track_object_cases F trans o threshold ts n) [
    | inl e ↦ rw e (record {
      ascending =
          subst (λ x. Ascending 1 (ids (ts ++ ((new_track F o n, true) ∷ []))) x) (omega arith)
            (Ascending-snoc 1 n ts (new_track F o n) refl s);
      bound = (omega arith, omega arith);
      fresh = marked-above 1 n ts s;
      now = rw (marked-snoc n ts (new_track F o n)) (ground arith);
      grown = λ a m. rw (marked-snoc a ts (new_track F o n), m);
    })
    | inr (i, t, at, c, l, e) ↦ rw e (record {
      ascending = rw (ids-set i ts t (take_box F o t) false true at refl) s;
      bound = (omega arith, omega arith);
      fresh = (marked-at i 1 n ts t at s).0;
      now = rw (marked-set t.id i ts t (take_box F o t) at refl) (ground arith);
      grown = λ a m. rw (marked-set a i ts t (take_box F o t) at refl, m) (ground arith);
    })
  ]

  track_objects-Tracked :
      (os : List DetObject) (ts : List Marked) (n : ℕ)
      → n + length os < 2 ^ 64
      → Ascending 1 (ids ts) n
      → Tracked ts n (length os) (track_objects F threshold os ts n)
  unfolding track_objects
  track_objects-Tracked [] ts n h s = record {
    ascending = s;
    bound = (omega arith, omega arith);
    fresh = tt;
    distinct = tt;
    grown = λ a m. m;
  }
  track_objects-Tracked (o ∷ os) ts n h s =
      let one = track_object-TrackedOne o ts n (omega arith) s in
      let out = track_object F threshold o ts n in
      let rest = track_objects-Tracked os out.1 out.2 (omega (arith, one.bound.1)) one.ascending in
      record {
        ascending = rest.ascending;
        bound =
            (omega (arith, rest.bound.0, one.bound.0), omega (arith, rest.bound.1, one.bound.1));
        fresh = (one.fresh, unmarked_before ts out.1 _ one.grown rest.fresh);
        distinct = (apart out.0.tracker_id ts out.1 _ one.now rest.fresh, rest.distinct);
        grown = λ a m. rest.grown a (one.grown a m);
      }

ids-unmarked : (ts : List Track) → ids (map unmarked ts) ≡ map (λ (t : Track). t.id) ts
ids-unmarked [] = refl
ids-unmarked (t ∷ ts) = ap (◌∷◌ t.id) (ids-unmarked ts)

Ascending-grow_old :
    (max_age lo hi : ℕ) (ts : List Marked)
    → Ascending lo (ids ts) hi
    → Ascending lo (map (λ (t : Track). t.id) (grow_old max_age ts)) hi
unfolding grow_old
Ascending-grow_old max_age lo hi [] s = s
Ascending-grow_old max_age lo hi ((t, true) ∷ ts) s = elim (Bool-cases (ltb max_age t.age)) [
  | inl e ↦ rw e (
      Ascending-from (suc t.id) lo hi _ (omega arith)
        (Ascending-grow_old max_age (suc t.id) hi ts s.1))
  | inr e ↦ rw e (s.0, Ascending-grow_old max_age (suc t.id) hi ts s.1)
]
Ascending-grow_old max_age lo hi ((t, false) ∷ ts) s = elim (Bool-cases (ltb max_age (t.age + 1))) [
  | inl e ↦ rw e (
      Ascending-from (suc t.id) lo hi _ (omega arith)
        (Ascending-grow_old max_age (suc t.id) hi ts s.1))
  | inr e ↦ rw e (s.0, Ascending-grow_old max_age (suc t.id) hi ts s.1)
]

-- The tracks' identifiers ascend from 1 and stay below the next one.
abbrev pub IsNumbered : Tracker → Type 0
IsNumbered t = Ascending 1 (map (λ (u : Track). u.id) t.tracks) t.next_id

-- One frame: the identifiers of the tracks still ascend from 1 below the next one, which grows by
-- the number of objects at most; and no two objects of the frame get the same identifier. The
-- comparison of overlaps is transitive, and identifiers do not reach 2^64.
pub update_ids :
    (F : FloatOps) (trans : (a b c : F32) → F.le a b ≡ true → F.le b c ≡ true → F.le a c ≡ true)
    (t : Tracker) (objects : List DetObject)
    → t.next_id + length objects < 2 ^ 64
    → IsNumbered t
    → let (objects', t') = update F t objects in
      IsNumbered t'
      × DistinctIds objects'
      × (t.next_id ≤ t'.next_id)
      × (t'.next_id ≤ t.next_id + length objects)
unfolding update
update_ids F trans t objects h s =
    let r =
      track_objects-Tracked F trans t.params.iou_threshold objects (map unmarked t.tracks) t.next_id
        h (rw (ids-unmarked t.tracks) s) in
    (Ascending-grow_old t.params.max_age 1 _ _ r.ascending, r.distinct, r.bound.0, r.bound.1)
