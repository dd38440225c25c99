-- ===== src/Ipc/Race/Count.antt =====
-- The references that the readers hold together, slot by slot.
use gst_nvmm_cpp.Common.{
  ℕ, zero, suc, ◌+◌, ◌*◌, ◌≤◌, ◌<◌, ◌≡◌, ap, List, [], ◌∷◌, none, some, set, get_elem?, length, All,
  ◌==◌, if◌then◌else◌, arith, subst,
}
use gst_nvmm_cpp.Ipc.AppSrc.State.{release_delay}
use gst_nvmm_cpp.Ipc.AppSrc.Ring.{held, held-le-length}
use gst_nvmm_cpp.Ipc.Race.{Reader, ReaderAt, outside, chosen, loaded, claimed, stopping}

-- The reference that a reader has taken and not yet put into its ring.
abbrev pub in_hand : ℕ → ReaderAt → ℕ
in_hand i outside = 0
in_hand i (chosen idx a) = 0
in_hand i (loaded idx a v) = 0
in_hand i (claimed idx) = if idx == i then 1 else 0
in_hand i (stopping k) = 0

abbrev pub holds : ℕ → Reader → ℕ
holds i r = held i r.src.release_ring + in_hand i r.at

-- All references on slot `i`.
abbrev pub all_held : ℕ → List Reader → ℕ
all_held i [] = 0
all_held i (r ∷ rs) = holds i r + all_held i rs

pub record RingOk (r : Reader) : Type 0 where
  pub full : length r.src.release_ring ≡ release_delay
  pub inside : r.src.ring_head < release_delay

pub all_held-set :
    (i k : ℕ) (r r' : Reader) (rs : List Reader)
    → get_elem? rs k ≡ some r
    → all_held i (set rs k r') + holds i r ≡ all_held i rs + holds i r'
all_held-set i k r r' [] e = cc
all_held-set i zero r r' (q ∷ rs) e = grind arith
all_held-set i (suc k) r r' (q ∷ rs) e = omega (arith, all_held-set i k r r' rs e)

pub All-get_elem? {ℓ} :
    {A : Type ℓ} (P : A → Type 0) (xs : List A) (k : ℕ) (x : A)
    → All P xs
    → get_elem? xs k ≡ some x
    → P x
All-get_elem? P [] k x a e = absurd cc
All-get_elem? P (y ∷ xs) zero x a e = subst P (ap (λ o. elim o [ none ↦ y | some z ↦ z ]) e) a.0
All-get_elem? P (y ∷ xs) (suc k) x a e = All-get_elem? P xs k x a.1 e

pub All-set {ℓ} :
    {A : Type ℓ} (P : A → Type 0) (xs : List A) (k : ℕ) (x : A)
    → All P xs
    → P x
    → All P (set xs k x)
All-set P [] k x a p = a
All-set P (y ∷ xs) zero x a p = (p, a.1)
All-set P (y ∷ xs) (suc k) x a p = (a.0, All-set P xs k x a.1 p)

pub in_hand-le-one : (i : ℕ) (p : ReaderAt) → in_hand i p ≤ 1
in_hand-le-one i outside = omega arith
in_hand-le-one i (chosen idx a) = omega arith
in_hand-le-one i (loaded idx a v) = omega arith
in_hand-le-one i (claimed idx) = ground arith
in_hand-le-one i (stopping k) = omega arith

-- A reader has at most thirteen references on a slot.
pub all_held-le : (i : ℕ) (rs : List Reader) → All RingOk rs → all_held i rs ≤ 13 * length rs
all_held-le i [] a = omega arith
all_held-le i (r ∷ rs) a = omega (
  arith,
  all_held-le i rs a.1,
  held-le-length i r.src.release_ring,
  a.0.full,
  in_hand-le-one i r.at,
)

-- One reader's references are among them all.
pub holds-le-all_held :
    (i k : ℕ) (r : Reader) (rs : List Reader) → get_elem? rs k ≡ some r → holds i r ≤ all_held i rs
holds-le-all_held i k r [] e = absurd cc
holds-le-all_held i zero r (q ∷ rs) e = grind arith
holds-le-all_held i (suc k) r (q ∷ rs) e = omega (arith, holds-le-all_held i k r rs e)
