-- ===== src/Tracker/Ids.antt =====
-- The identifiers of the tracks, and those that one frame's objects get.
use gst_nvmm_cpp.Common.{
  ℕ, zero, suc, ◌≤◌, ◌<◌, ◌≡◌, refl, List, [], ◌∷◌, ◌++◌, some, Bool, true, false, ◌||◌, ◌&&◌,
  get_elem?, set, arith, ◌==◌,
}
use gst_nvmm_cpp.Tracker.{Track, Marked}

abbrev pub ids : List Marked → List ℕ
ids [] = []
ids ((t, m) ∷ ts) = t.id ∷ ids ts

-- The numbers ascend strictly, from `lo` on and below `hi`.
abbrev pub Ascending : ℕ → List ℕ → ℕ → Type 0
Ascending lo [] hi = lo ≤ hi
Ascending lo (x ∷ xs) hi = (lo ≤ x) × Ascending (suc x) xs hi

pub Ascending-le : (lo hi : ℕ) (xs : List ℕ) → Ascending lo xs hi → lo ≤ hi
Ascending-le lo hi [] a = a
Ascending-le lo hi (x ∷ xs) a = omega (arith, Ascending-le (suc x) hi xs a.1)

pub Ascending-from :
    (lo lo' hi : ℕ) (xs : List ℕ) → lo' ≤ lo → Ascending lo xs hi → Ascending lo' xs hi
Ascending-from lo lo' hi [] h a = omega arith
Ascending-from lo lo' hi (x ∷ xs) h a = (omega arith, a.1)

pub ids-set :
    (i : ℕ) (ts : List Marked) (t u : Track) (m n : Bool)
    → get_elem? ts i ≡ some (t, m)
    → u.id ≡ t.id
    → ids (set ts i (u, n)) ≡ ids ts
ids-set i [] t u m n e h = refl
ids-set zero (x ∷ ts) t u m n e h = ground arith
ids-set (suc i) (x ∷ ts) t u m n e h = ground (arith, ids-set i ts t u m n e h)

pub Ascending-snoc :
    (lo n : ℕ) (ts : List Marked) (t : Track)
    → t.id ≡ n
    → Ascending lo (ids ts) n
    → Ascending lo (ids (ts ++ ((t, true) ∷ []))) (suc n)
Ascending-snoc lo n [] t e a = (omega arith, omega arith)
Ascending-snoc lo n (x ∷ ts) t e a = (a.0, Ascending-snoc (suc x.0.id) n ts t e a.1)

-- A track of this identifier is marked.
abbrev pub marked : ℕ → List Marked → Bool
marked a [] = false
marked a ((t, m) ∷ ts) = (t.id == a && m) || marked a ts

pub marked-below :
    (a lo hi : ℕ) (ts : List Marked) → a < lo → Ascending lo (ids ts) hi → marked a ts ≡ false
marked-below a lo hi [] h s = refl
marked-below a lo hi ((t, m) ∷ ts) h s =
    ground (arith, marked-below a (suc t.id) hi ts (omega arith) s.1)

pub marked-above : (lo hi : ℕ) (ts : List Marked) → Ascending lo (ids ts) hi → marked hi ts ≡ false
marked-above lo hi [] s = refl
marked-above lo hi ((t, m) ∷ ts) s =
    ground (arith, marked-above (suc t.id) hi ts s.1, Ascending-le (suc t.id) hi (ids ts) s.1)

-- Identifiers ascend, so an unmarked track's is not marked elsewhere.
pub marked-at :
    (i lo hi : ℕ) (ts : List Marked) (t : Track)
    → get_elem? ts i ≡ some (t, false)
    → Ascending lo (ids ts) hi
    → (marked t.id ts ≡ false) × (lo ≤ t.id)
marked-at i lo hi [] t e s = cc
marked-at zero lo hi ((u, m) ∷ ts) t e s = ground (arith, marked-below t.id (suc u.id) hi ts)
marked-at (suc i) lo hi ((u, m) ∷ ts) t e s = ground (arith, marked-at i (suc u.id) hi ts t e s.1)

pub marked-set :
    (a i : ℕ) (ts : List Marked) (t u : Track)
    → get_elem? ts i ≡ some (t, false)
    → u.id ≡ t.id
    → marked a (set ts i (u, true)) ≡ (t.id == a || marked a ts)
marked-set a i [] t u e h = cc
marked-set a zero ((v, m) ∷ ts) t u e h = ground arith
marked-set a (suc i) ((v, m) ∷ ts) t u e h = ground (arith, marked-set a i ts t u e h)

pub marked-snoc :
    (a : ℕ) (ts : List Marked) (t : Track)
    → marked a (ts ++ ((t, true) ∷ [])) ≡ (marked a ts || t.id == a)
marked-snoc a [] t = ground arith
marked-snoc a (x ∷ ts) t = ground (arith, marked-snoc a ts t)
