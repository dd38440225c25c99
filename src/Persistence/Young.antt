-- ===== src/Persistence/Young.antt =====
-- The age of a gate's tracks (analytics/persistence_gate.hpp).
use gst_nvmm_cpp.Common.{
  ℕ, zero, suc, ◌+◌, ◌≤◌, ◌<◌, ◌≡◌, refl, List, [], ◌∷◌, ◌++◌, Option, none, some, true, false,
  get_or, leb, if◌then◌else◌, map, All, arith, Bool-cases, Option-cases, inl, inr, ◌⊎◌, length, max,
  All-append,
}
use gst_nvmm_cpp.Common.Float.{F32, FloatOps}
use gst_nvmm_cpp.Persistence.{
  Detection, PersistenceParams, PersistentTrack, PersistenceGate, no_detection, unmatch, continued,
  begun, continue_at, keep, distance, is_confirmed, first_confirmed, nearest, associate,
  associate_all, tracked, update_gate, run_gate, reset_gate,
}

-- A track that was matched in this frame counts it; no track has support for longer than its age.
abbrev Aged : ℕ → PersistentTrack → Type 0
Aged n t = (t.age ≤ (if t.matched then n + 1 else n)) × (t.sup ≤ t.age)

-- Track number `r - k` is unmatched.
abbrev Unmatched : List PersistentTrack → ℕ → ℕ → Type 0
Unmatched [] k r = ⊥
Unmatched (t ∷ ts) k r = ((r ≡ k) × (t.matched ≡ false)) ⊎ Unmatched ts (k + 1) r

begun-Aged : (n oi : ℕ) (d : Detection) → Aged n (begun oi d)
begun-Aged n oi d = ground arith

continued-Aged :
    (n oi : ℕ) (d : Detection) (t : PersistentTrack)
    → t.matched ≡ false
    → Aged n t
    → Aged n (continued oi d t)
continued-Aged n oi d t m a = ground (arith, m, a)

continue_at-Aged :
    (n k r oi i : ℕ) (d : Detection) (ts : List PersistentTrack)
    → r ≡ k + i
    → Unmatched ts k r
    → All (Aged n) ts
    → All (Aged n) (continue_at i oi d ts)
continue_at-Aged n k r oi i d [] e u a = tt
continue_at-Aged n k r oi zero d (t ∷ ts) e (inl (q, m)) a = (continued-Aged n oi d t m a.0, a.1)
continue_at-Aged n k r oi zero d (t ∷ ts) e (inr u) a = absurd (omega (arith, beyond k r ts u))
  where
    beyond : (a b : ℕ) (us : List PersistentTrack) → Unmatched us (a + 1) b → a + 1 ≤ b
    beyond a b [] v = absurd v
    beyond a b (u ∷ us) (inl (q, m)) = omega (arith, q)
    beyond a b (u ∷ us) (inr v) = omega (arith, beyond (a + 1) b us v)
continue_at-Aged n k r oi (suc i) d (t ∷ ts) e (inl (q, m)) a = absurd (omega (arith, e, q))
continue_at-Aged n k r oi (suc i) d (t ∷ ts) e (inr u) a =
    (a.0, continue_at-Aged n (k + 1) r oi i d ts (omega (arith, e)) u a.1)

module _ (F : FloatOps) (order : List Detection → List ℕ) where
  nearest-Unmatched :
      (d : Detection) (ts : List PersistentTrack) (k : ℕ) (best : Option ℕ) (bd : F32) (r : ℕ)
      → nearest F order d ts k best bd ≡ some r
      → (best ≡ some r) ⊎ Unmatched ts k r
  unfolding nearest
  nearest-Unmatched d [] k best bd r e = inl e
  nearest-Unmatched d (t ∷ ts) k best bd r e =
      elim (Bool-cases (if t.matched then false else F.lt dd bd)) [
        | inl c ↦ found c (nearest-Unmatched d ts (k + 1) (some k) dd r (rw c at e))
        | inr c ↦ passed (nearest-Unmatched d ts (k + 1) best bd r (rw c at e))
      ]
    where
      dd : F32
      dd = distance F order t.cx t.cy d.cx d.cy

      found :
          (if t.matched then false else F.lt dd bd) ≡ true
          → (some k ≡ some r) ⊎ Unmatched ts (k + 1) r
          → (best ≡ some r) ⊎ Unmatched (t ∷ ts) k r
      found c (inl h) = inr (inl (ground arith, ground (arith, c)))
      found c (inr h) = inr (inr h)

      passed : (best ≡ some r) ⊎ Unmatched ts (k + 1) r → (best ≡ some r) ⊎ Unmatched (t ∷ ts) k r
      passed (inl h) = inl h
      passed (inr h) = inr (inr h)

  associate_new :
      (oi : ℕ) (dist : F32) (d : Detection) (ts : List PersistentTrack)
      → nearest F order d ts 0 none dist ≡ none
      → associate F order dist d oi ts ≡ ts ++ (begun oi d ∷ [])
  unfolding associate
  associate_new oi dist d ts e = ground (arith, e)

  associate_old :
      (oi r : ℕ) (dist : F32) (d : Detection) (ts : List PersistentTrack)
      → nearest F order d ts 0 none dist ≡ some r
      → associate F order dist d oi ts ≡ continue_at r oi d ts
  unfolding associate
  associate_old oi r dist d ts e = ground (arith, e)

  associate-Aged :
      (n oi : ℕ) (dist : F32) (d : Detection) (ts : List PersistentTrack)
      → All (Aged n) ts
      → All (Aged n) (associate F order dist d oi ts)
  associate-Aged n oi dist d ts a = elim (Option-cases (nearest F order d ts 0 none dist)) [
    | inl e ↦
        rw (associate_new oi dist d ts e)
          (All-append (Aged n) ts (begun oi d ∷ []) a (begun-Aged n oi d, tt))
    | inr (r, e) ↦
        rw (associate_old oi r dist d ts e) (taken r (nearest-Unmatched d ts 0 none dist r e))
  ]
    where
      taken : (r : ℕ) → (none ≡ some r) ⊎ Unmatched ts 0 r → All (Aged n) (continue_at r oi d ts)
      taken r (inl h) = cc
      taken r (inr u) = continue_at-Aged n 0 r oi r d ts (omega arith) u a

  associate_all-Aged :
      (n : ℕ) (dist : F32) (dets : List Detection) (ois : List ℕ) (ts : List PersistentTrack)
      → All (Aged n) ts
      → All (Aged n) (associate_all F order dist dets ois ts)
  unfolding associate_all
  associate_all-Aged n dist dets [] ts a = a
  associate_all-Aged n dist dets (oi ∷ ois) ts a =
      associate_all-Aged n dist dets ois _
        (associate-Aged n oi dist (get_or dets oi no_detection) ts a)

-- Between two frames, after `n` of them: no track is older than `n`, or supported for longer than its
-- age.
abbrev Young : ℕ → PersistentTrack → Type 0
Young n t = (t.age ≤ n) × (t.sup ≤ t.age)

unmatch-Aged :
    (n : ℕ) (ts : List PersistentTrack) → All (Young n) ts → All (Aged n) (map unmatch ts)
unmatch-Aged n [] a = tt
unmatch-Aged n (t ∷ ts) a = ((a.0.0, a.0.1), unmatch-Aged n ts a.1)

keep-Young :
    (n m : ℕ) (ts : List PersistentTrack) → All (Aged n) ts → All (Young (n + 1)) (keep m ts)
keep-Young n m [] a = tt
keep-Young n m (t ∷ ts) a = elim (Bool-cases (leb t.lost m)) [
  | inl e ↦ rw e ((ground (arith, a.0), a.0.1), keep-Young n m ts a.1)
  | inr e ↦ rw e (keep-Young n m ts a.1)
]

first_confirmed-Young :
    (n : ℕ) (p : PersistenceParams) (ts : List PersistentTrack)
    → All (Young n) ts
    → n < max p.min_age p.min_support
    → first_confirmed p ts ≡ none
first_confirmed-Young n p [] a h = refl
first_confirmed-Young n p (t ∷ ts) a h = rw (unconfirmed) (first_confirmed-Young n p ts a.1 h)
  where
    unconfirmed : is_confirmed p t ≡ false
    unconfirmed = ground (arith, a.0, h)

module _ (F : FloatOps) (order : List Detection → List ℕ) where
  tracked-Young :
      (n : ℕ) (dets : List Detection) (g : PersistenceGate)
      → All (Young n) g.tracks
      → All (Young (n + 1)) (tracked F order dets g)
  unfolding tracked
  tracked-Young n dets g a = keep-Young n g.params.max_lost _ (
      associate_all-Aged F order n g.params.assoc_dist dets (order dets) (map unmatch g.tracks)
        (unmatch-Aged n g.tracks a))

  update_open :
      (dets : List Detection) (g : PersistenceGate)
      → g.locked ≡ false
      → first_confirmed g.params (tracked F order dets g) ≡ none
      → update_gate F order dets g ≡ (none, record g { tracks = tracked F order dets g })
  unfolding update_gate
  update_open dets g l e = ground (arith, l, e)

  run_gate-open :
      (n : ℕ) (frames : List (List Detection)) (g : PersistenceGate)
      → g.locked ≡ false
      → All (Young n) g.tracks
      → n + length frames < max g.params.min_age g.params.min_support
      → (run_gate F order frames g).locked ≡ false
  unfolding run_gate
  run_gate-open n [] g l a h = l
  run_gate-open n (dets ∷ frames) g l a h =
      rw
        (
          run_gate,
          update_open dets g l
              (first_confirmed-Young (n + 1) g.params _ (tracked-Young n dets g a) (omega arith)),
        )
        (run_gate-open (n + 1) frames (record g { tracks = tracked F order dets g }) l
          (tracked-Young n dets g a) (omega arith))

  -- A gate that was reset is not locked while it has seen fewer frames than `min_age`, or fewer than
  -- `min_support`, whatever the detections are and however they are sorted.
  pub run_gate-early :
      (frames : List (List Detection)) (g : PersistenceGate)
      → length frames < max g.params.min_age g.params.min_support
      → (run_gate F order frames (reset_gate g)).locked ≡ false
  unfolding reset_gate
  run_gate-early frames g h = run_gate-open 0 frames (reset_gate g) refl tt (omega (arith, h))
