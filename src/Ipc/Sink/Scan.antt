-- ===== src/Ipc/Sink/Scan.antt =====
-- gst/nvmmsink/gstnvmmsink.cpp: which slot render takes.
use native.Mathlib.Nat.{mod-lt, mod-add-mod, mod-eq_of_lt, mod-eq-sub-mod}
use native.Mathlib.Decide.{dec_lt}
use gst_nvmm_cpp.Common.{
  ℕ, zero, suc, ◌+◌, ◌-◌, ◌%◌, ◌≤◌, ◌<◌, ◌≡◌, ◌≢◌, refl, ap, ◌∙◌, sym, ◌⊎◌, inl, inr, List, Option,
  none, some, true, false, set, Bool-cases, arith,
}
use gst_nvmm_cpp.Common.Int.{ℤ, pos, negsuc, eq_ℤ}
use gst_nvmm_cpp.Ipc.Sink.Render.{ref_count, scan}

pub eq_ℤ-zero : (v : ℤ) → eq_ℤ v (pos 0) ≡ true → v ≡ pos 0
eq_ℤ-zero (pos n) h = ground arith
eq_ℤ-zero (negsuc n) h = cc

pub eq_ℤ-zero_ne : (v : ℤ) → eq_ℤ v (pos 0) ≡ false → v ≢ pos 0
eq_ℤ-zero_ne (pos n) h e = ground arith
eq_ℤ-zero_ne (negsuc n) h e = cc

module _ (w n : ℕ) where
  abbrev pub slot : ℕ → ℕ
  slot i = (w + 1 + i) % n

  -- The slots of the rounds from `i` up to `j` are all taken.
  abbrev pub Busy : List ℤ → ℕ → ℕ → Type 0
  Busy refs i j = (r : ℕ) → i ≤ r → r < j → ref_count refs (slot r) ≢ pos 0

  abbrev pub Scanned : ℕ → ℕ → List ℤ → Option ℕ × List ℤ → Type 0
  Scanned k i refs out =
      ((out ≡ (none, refs)) × Busy refs i (i + k))
      ⊎ ((j : ℕ) × (i ≤ j)
          × (j < i + k)
          × (out ≡ (some (slot j), set refs (slot j) (negsuc 0)))
          × (ref_count refs (slot j) ≡ pos 0)
          × Busy refs i j)

  Busy-cons :
      (refs : List ℤ) (i j : ℕ)
      → ref_count refs (slot i) ≢ pos 0
      → Busy refs (suc i) j
      → Busy refs i j
  Busy-cons refs i j first rest r lo hi = elim (dec_lt i r) [
    | yes p ↦ rest r p hi
    | no p ↦ let e : i ≡ r = omega arith in rw (← e) first
  ]

  scan-free :
      (k i : ℕ) (refs : List ℤ)
      → eq_ℤ (ref_count refs (slot i)) (pos 0) ≡ true
      → scan w n (suc k) i refs ≡ (some (slot i), set refs (slot i) (negsuc 0))
  unfolding scan
  scan-free k i refs e = ground arith

  scan-busy :
      (k i : ℕ) (refs : List ℤ)
      → eq_ℤ (ref_count refs (slot i)) (pos 0) ≡ false
      → scan w n (suc k) i refs ≡ scan w n k (i + 1) refs
  unfolding scan
  scan-busy k i refs e = ground arith

  -- The scan takes the first free slot in its order, and locks it; or all of its slots are taken,
  -- and nothing changes.
  pub scan-Scanned : (k i : ℕ) (refs : List ℤ) → Scanned k i refs (scan w n k i refs)
  unfolding scan
  scan-Scanned zero i refs = inl (refl, λ r lo hi. absurd (omega arith))
  scan-Scanned (suc k) i refs = elim (Bool-cases (eq_ℤ (ref_count refs (slot i)) (pos 0))) [
    | inl free ↦
        rw (scan-free k i refs free) (
          inr
            (i, omega arith, omega arith, refl, eq_ℤ-zero _ free, λ r lo hi. absurd (omega arith)))
    | inr busy ↦
        rw (scan-busy k i refs busy)
          (later (eq_ℤ-zero_ne _ busy) (scan w n k (i + 1) refs) (scan-Scanned k (i + 1) refs))
  ]
    where
      later :
          ref_count refs (slot i) ≢ pos 0
          → (out : Option ℕ × List ℤ) → Scanned k (i + 1) refs out
          → Scanned (suc k) i refs out
      later first out (inl (e, rest)) =
          inl
            (e, Busy-cons refs i (i + suc k) first (λ r lo hi. rest r (omega arith) (omega arith)))
      later first out (inr (j, lo, hi, e, z, rest)) = inr (
        j,
        omega arith,
        omega arith,
        e,
        z,
        Busy-cons refs i j first (λ r lo' hi'. rest r (omega arith) hi'),
      )

-- The search stops at its first slot if that is free.
pub scan-first :
    (w n k : ℕ) (refs : List ℤ)
    → 0 < k
    → ref_count refs (slot w n 0) ≡ pos 0
    → scan w n k 0 refs ≡ (some (slot w n 0), set refs (slot w n 0) (negsuc 0))
scan-first w n zero refs h e = absurd (omega arith)
scan-first w n (suc k) refs h e = scan-free w n k 0 refs (rw e)

-- Every slot below `n` is met in one of `n` rounds.
pub slot_round : (w n t : ℕ) → t < n → (j : ℕ) × (j < n) × (slot w n j ≡ t)
slot_round w n t h = elim (dec_lt t ((w + 1) % n)) [
  | yes p ↦ (
    t + n - (w + 1) % n,
    omega (arith, mod-lt (w + 1) {m = n} (omega arith)),
    sym (mod-add-mod (w + 1) n (t + n - (w + 1) % n)) ∙ wrapped (mod-lt (w + 1) (omega arith)),
  )
  | no p ↦ (
    t - (w + 1) % n,
    omega arith,
    sym (mod-add-mod (w + 1) n (t - (w + 1) % n))
        ∙ (ap (λ x. x % n) (omega arith) ∙ mod-eq_of_lt h),
  )
]
  where
    wrapped : (w + 1) % n < n → ((w + 1) % n + (t + n - (w + 1) % n)) % n ≡ t
    wrapped r =
        ap (λ x. x % n) (omega arith)
        ∙ (mod-eq-sub-mod {n = t + n} {m = n} (omega arith)
            ∙ (ap (λ x. x % n) (omega arith) ∙ mod-eq_of_lt h))
