-- ===== src/Tracker/Ages.antt =====
-- How long a track lives without a match (gst/nvmmtracker/tracker.cpp).
use gst_nvmm_cpp.Common.{
  ℕ, ◌+◌, ◌≤◌, ◌≡◌, refl, List, [], ◌∷◌, true, false, ltb, arith, map, All, Bool-cases, inl, inr,
  if◌then◌else◌,
}
use gst_nvmm_cpp.Common.Float.{FloatOps}
use gst_nvmm_cpp.Ipc.Protocol.{DetObject}
use gst_nvmm_cpp.Tracker.{Tracker, Track, Marked, unmarked, track_objects, grow_old, update}

grow_old-le : (max_age : ℕ) (ts : List Marked) → All (λ t. t.age ≤ max_age) (grow_old max_age ts)
unfolding grow_old
grow_old-le max_age [] = tt
grow_old-le max_age ((t, true) ∷ ts) = elim (Bool-cases (ltb max_age t.age)) [
  | inl e ↦ rw e (grow_old-le max_age ts)
  | inr e ↦ rw e (ground arith, grow_old-le max_age ts)
]
grow_old-le max_age ((t, false) ∷ ts) = elim (Bool-cases (ltb max_age (t.age + 1))) [
  | inl e ↦ rw e (grow_old-le max_age ts)
  | inr e ↦ rw e (ground arith, grow_old-le max_age ts)
]

-- The tracks of an empty frame, all a frame older, without those past the limit.
abbrev pub older : ℕ → List Track → List Track
older max_age [] = []
older max_age (t ∷ ts) =
    let rest = older max_age ts in
    if ltb max_age (t.age + 1) then rest else record t { age = t.age + 1 } ∷ rest

grow_old-unmarked :
    (max_age : ℕ) (ts : List Track) → grow_old max_age (map unmarked ts) ≡ older max_age ts
unfolding grow_old
grow_old-unmarked max_age [] = refl
grow_old-unmarked max_age (t ∷ ts) = ground (arith, grow_old-unmarked max_age ts)

-- After any frame no track is older than the limit. A frame without objects makes every track one
-- frame older, erases those that are past the limit, and starts no track.
pub update_ages :
    (F : FloatOps) (t : Tracker) (objects : List DetObject)
    → All (λ u. u.age ≤ t.params.max_age) (update F t objects).1.tracks
      × ((update F t []).1 ≡ record t { tracks = older t.params.max_age t.tracks })
unfolding update track_objects
update_ages F t objects =
    (grow_old-le t.params.max_age _, ground (arith, grow_old-unmarked t.params.max_age t.tracks))
