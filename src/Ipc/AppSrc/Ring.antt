-- ===== src/Ipc/AppSrc/Ring.antt =====
-- gst/nvmmappsrc/gstnvmmappsrc.cpp: how many references the release ring holds, slot by slot.
use gst_nvmm_cpp.Common.{
  ℕ, zero, suc, ◌+◌, ◌≤◌, ◌<◌, ◌≡◌, refl, ◌⊎◌, inl, inr, List, [], ◌∷◌, Option, none, some, set,
  get_or, length, ◌==◌, if◌then◌else◌, arith, replicate,
}
use gst_nvmm_cpp.Ipc.AppSrc.State.{RefSlot, no_ref}

abbrev pub points_at : ℕ → Option ℕ → ℕ
points_at i none = 0
points_at i (some j) = if j == i then 1 else 0

-- 1 if the slot holds a reference on `ref_counts[i]`.
abbrev pub weight : ℕ → RefSlot → ℕ
weight i r = if r.active then points_at i r.ptr else 0

abbrev pub held : ℕ → List RefSlot → ℕ
held i [] = 0
held i (r ∷ ring) = weight i r + held i ring

pub weight-le-one : (i : ℕ) (r : RefSlot) → weight i r ≤ 1
weight-le-one i r = ground arith

pub held-le-length : (i : ℕ) (ring : List RefSlot) → held i ring ≤ length ring
held-le-length i [] = omega arith
held-le-length i (r ∷ ring) = omega (arith, held-le-length i ring, weight-le-one i r)

pub held-set :
    (i k : ℕ) (r : RefSlot) (ring : List RefSlot)
    → k < length ring
    → held i (set ring k r) + weight i (get_or ring k no_ref) ≡ held i ring + weight i r
held-set i k r [] h = absurd (omega arith)
held-set i zero r (q ∷ ring) h = omega arith
held-set i (suc k) r (q ∷ ring) h = omega (arith, held-set i k r ring (omega arith))

pub held-get_or : (i k : ℕ) (ring : List RefSlot) → weight i (get_or ring k no_ref) ≤ held i ring
held-get_or i k [] = omega arith
held-get_or i zero (q ∷ ring) = omega arith
held-get_or i (suc k) (q ∷ ring) = omega (arith, held-get_or i k ring)

pub held-replicate : (i n : ℕ) → held i (replicate n no_ref) ≡ 0
held-replicate i zero = refl
held-replicate i (suc n) = omega (arith, held-replicate i n)

-- The references on the slots below `n`.
abbrev total_weight : ℕ → RefSlot → ℕ
total_weight zero r = 0
total_weight (suc n) r = weight n r + total_weight n r

abbrev total : ℕ → List RefSlot → ℕ
total zero ring = 0
total (suc n) ring = held n ring + total n ring

-- A ring slot points at one counter at most.
total_weight-below : (n j : ℕ) (r : RefSlot) → r.ptr ≡ some j → n ≤ j → total_weight n r ≡ 0
total_weight-below zero j r e h = refl
total_weight-below (suc n) j r e h = ground (arith, total_weight-below n j r)

total_weight-none : (n : ℕ) (r : RefSlot) → r.ptr ≡ none → total_weight n r ≡ 0
total_weight-none zero r e = refl
total_weight-none (suc n) r e = ground (arith, total_weight-none n r)

total_weight-le-one : (n : ℕ) (r : RefSlot) → total_weight n r ≤ 1
total_weight-le-one zero r = omega arith
total_weight-le-one (suc n) r = ground (arith, total_weight-le-one n r, total_weight-below n n r)

total-cons :
    (n : ℕ) (r : RefSlot) (ring : List RefSlot)
    → total n (r ∷ ring) ≡ total_weight n r + total n ring
total-cons zero r ring = omega arith
total-cons (suc n) r ring = omega (arith, total-cons n r ring)

total-nil : (n : ℕ) → total n [] ≡ 0
total-nil zero = refl
total-nil (suc n) = omega (arith, total-nil n)

total-le-length : (n : ℕ) (ring : List RefSlot) → total n ring ≤ length ring
total-le-length n [] = omega (arith, total-nil n)
total-le-length n (r ∷ ring) =
    omega (arith, total-cons n r ring, total-le-length n ring, total_weight-le-one n r)

-- Of the first `n` slots one is free, or all of them are held.
free_or_full :
    (n : ℕ) (ring : List RefSlot) → ((i : ℕ) × (i < n) × (held i ring ≡ 0)) ⊎ (n ≤ total n ring)
free_or_full zero ring = inr (omega arith)
free_or_full (suc n) ring = elim (free_or_full n ring) [
  | inl (i, lt, free) ↦ inl (i, omega arith, free)
  | inr full ↦ last (held n ring) refl full
]
  where
    last :
        (h : ℕ)
        → held n ring ≡ h
        → n ≤ total n ring
        → ((i : ℕ) × (i < suc n) × (held i ring ≡ 0)) ⊎ (suc n ≤ total (suc n) ring)
    last zero e full = inl (n, omega arith, e)
    last (suc h) e full = inr (omega arith)

-- More slots than ring entries: one of the slots is not held.
pub free_slot :
    (n : ℕ) (ring : List RefSlot) → length ring < n → (i : ℕ) × (i < n) × (held i ring ≡ 0)
free_slot n ring h = elim (free_or_full n ring) [
  | inl found ↦ found
  | inr full ↦ absurd (omega (arith, total-le-length n ring))
]
