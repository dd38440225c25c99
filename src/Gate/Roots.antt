-- ===== src/Gate/Roots.antt =====
-- gst/nvmmdetgate/detgate.hpp: the rounds of `find` in motion_blob.
use gst_nvmm_cpp.Common.{
  ℕ, zero, suc, ◌+◌, ◌*◌, ◌≤◌, ◌≡◌, ◌≢◌, refl, ap, ◌∙◌, sym, subst, ◌⊎◌, inl, inr, List, [], ◌∷◌,
  Bool, true, false, set, get_or, get_or-set_ne, length, ◌==◌, ==_iff, if◌then◌else◌, Bool-cases,
  arith,
}
use gst_nvmm_cpp.Common.Float.{F32, FloatOps}
use gst_nvmm_cpp.Gate.Blob.{MotionSample, find, indices, unite, unite_with, unite_all, near}

abbrev up : List ℕ → ℕ → ℕ
up ps i = get_or ps i i

-- From `i`, at most `d` parents lead to a root.
abbrev Reaches : List ℕ → ℕ → ℕ → Type 0
Reaches ps zero i = up ps i ≡ i
Reaches ps (suc d) i = (up ps i ≡ i) ⊎ Reaches ps d (up ps i)

abbrev Deep : ℕ → List ℕ → Type 0
Deep d ps = (i : ℕ) → Reaches ps d i

Reaches-root : (ps : List ℕ) (d i : ℕ) → up ps i ≡ i → Reaches ps d i
Reaches-root ps zero i e = e
Reaches-root ps (suc d) i e = inl e

Reaches-suc : (ps : List ℕ) (d i : ℕ) → Reaches ps d i → Reaches ps (suc d) i
Reaches-suc ps zero i e = inl e
Reaches-suc ps (suc d) i (inl e) = inl e
Reaches-suc ps (suc d) i (inr r) = inr (Reaches-suc ps d (up ps i) r)

Reaches-le : (ps : List ℕ) (d e i : ℕ) → d ≤ e → Reaches ps d i → Reaches ps e i
Reaches-le ps zero e i h r = Reaches-root ps e i r
Reaches-le ps (suc d) zero i h r = absurd (omega arith)
Reaches-le ps (suc d) (suc e) i h (inl r) = inl r
Reaches-le ps (suc d) (suc e) i h (inr r) = inr (Reaches-le ps d e (up ps i) (omega arith) r)

square : (n : ℕ) → suc n * suc n ≡ n * n + n + n + 1
square n = grind arith

Reaches-up : (ps : List ℕ) (d i : ℕ) → Reaches ps d i → Reaches ps d (up ps i)
Reaches-up ps zero i e = ap (up ps) e
Reaches-up ps (suc d) i (inl e) = inl (ap (up ps) e)
Reaches-up ps (suc d) i (inr r) = Reaches-suc ps d (up ps i) r

-- A write of the parents, out of range too.
up-set_ne : (ps : List ℕ) (i j v : ℕ) → i ≢ j → up (set ps i v) j ≡ up ps j
up-set_ne ps i j v ne = get_or-set_ne ps i j v j ne

up-set_self :
    (ps : List ℕ) (i v : ℕ) → (up (set ps i v) i ≡ v) ⊎ ((set ps i v ≡ ps) × (up ps i ≡ i))
up-set_self ps i v = by ps i v i
  where
    by :
        (qs : List ℕ) (k w d : ℕ)
        → (get_or (set qs k w) k d ≡ w) ⊎ ((set qs k w ≡ qs) × (get_or qs k d ≡ d))
    by [] k w d = inr (refl, refl)
    by (q ∷ qs) zero w d = inl refl
    by (q ∷ qs) (suc k) w d = elim (by qs k w d) [
      | inl e ↦ inl e
      | inr (e, f) ↦ inr (ap (◌∷◌ q) e, f)
    ]

-- Halving: a node's parent becomes its parent's parent.
abbrev halved : List ℕ → ℕ → List ℕ
halved ps i = set ps i (up ps (up ps i))

same : (i j : ℕ) → (i ≡ j) ⊎ (i ≢ j)
same i j = elim (Bool-cases (i == j)) [
  | inl e ↦ inl ((==_iff i j).0 e)
  | inr e ↦ inr (λ q. ground (arith, e, q))
]

halved-root : (ps : List ℕ) (i j : ℕ) → up ps j ≡ j → up (halved ps i) j ≡ j
halved-root ps i j e = elim (same i j) [
  | inl q ↦ elim (up-set_self ps j (up ps (up ps j))) [
    | inl u ↦ subst (λ k. up (halved ps k) j ≡ j) (sym q) (u ∙ (ap (up ps) e ∙ e))
    | inr u ↦ subst (λ k. up (halved ps k) j ≡ j) (sym q) (ap (λ qs. up qs j) u.0 ∙ e)
  ]
  | inr ne ↦ up-set_ne ps i j (up ps (up ps i)) ne ∙ e
]

halved-Reaches : (ps : List ℕ) (i d j : ℕ) → Reaches ps d j → Reaches (halved ps i) d j
halved-Reaches ps i zero j e = halved-root ps i j e
halved-Reaches ps i (suc d) j (inl e) = inl (halved-root ps i j e)
halved-Reaches ps i (suc d) j (inr r) =
    by (same i j) (halved-Reaches ps i d (up ps j) r)
      (halved-Reaches ps i d (up ps (up ps j)) (Reaches-up ps d (up ps j) r))
  where
    at :
        Reaches (halved ps i) d (up ps j)
        → up (halved ps i) j ≡ up ps j
        → Reaches (halved ps i) (suc d) j
    at q e = inr (subst (Reaches (halved ps i) d) (sym e) q)

    by :
        (i ≡ j) ⊎ (i ≢ j)
        → Reaches (halved ps i) d (up ps j)
        → Reaches (halved ps i) d (up ps (up ps j))
        → Reaches (halved ps i) (suc d) j
    by (inr ne) q p = at q (up-set_ne ps i j (up ps (up ps i)) ne)
    by (inl e) q p = elim (up-set_self ps i (up ps (up ps i))) [
      | inl u ↦ inr (
          subst (Reaches (halved ps i) d)
            (sym (ap (up (halved ps i)) (sym e) ∙ (u ∙ ap (λ k. up ps (up ps k)) e))) p)
      | inr u ↦ at q (ap (λ qs. up qs j) u.0)
    ]

lift : (ps : List ℕ) (d i : ℕ) → Reaches ps 1 i → Reaches ps (suc d) i
lift ps d i (inl e) = inl e
lift ps d i (inr e) = inr (Reaches-root ps d (up ps i) e)

-- A root that is put under another root makes the paths longer by one.
module _ (ps : List ℕ) (a b : ℕ) (ra : up ps a ≡ a) (rb : up ps b ≡ b) (ne : a ≢ b) where
  linked-root : (j : ℕ) → up ps j ≡ j → Reaches (set ps a b) 1 j
  linked-root j e = elim (same a j) [
    | inr q ↦ inl (up-set_ne ps a j b q ∙ e)
    | inl q ↦ subst (Reaches (set ps a b) 1) q (at (up-set_self ps a b))
  ]
    where
      at : (up (set ps a b) a ≡ b) ⊎ ((set ps a b ≡ ps) × (up ps a ≡ a)) → Reaches (set ps a b) 1 a
      at (inl u) = inr (ap (up (set ps a b)) u ∙ (up-set_ne ps a b b ne ∙ (rb ∙ sym u)))
      at (inr u) = inl (ap (λ qs. up qs a) u.0 ∙ ra)

  linked-Reaches : (d j : ℕ) → Reaches ps d j → Reaches (set ps a b) (suc d) j
  linked-Reaches zero j e = linked-root j e
  linked-Reaches (suc d) j (inl e) = lift (set ps a b) (suc d) j (linked-root j e)
  linked-Reaches (suc d) j (inr r) = by (same a j) (linked-Reaches d (up ps j) r)
    where
      by :
          (a ≡ j) ⊎ (a ≢ j)
          → Reaches (set ps a b) (suc d) (up ps j)
          → Reaches (set ps a b) (suc (suc d)) j
      by (inl q) t = lift (set ps a b) (suc d) j (linked-root j (subst (λ k. up ps k ≡ k) q ra))
      by (inr q) t = inr (subst (Reaches (set ps a b) (suc d)) (sym (up-set_ne ps a j b q)) t)

-- What a search leaves: a root, and no longer paths.
abbrev pub Found : List ℕ → ℕ × List ℕ → Type 0
Found ps (r, qs) = (up qs r ≡ r) × ((e j : ℕ) → Reaches ps e j → Reaches qs e j)

find-stop : (k : ℕ) (ps : List ℕ) (i : ℕ) → (up ps i == i) ≡ true → find (suc k) ps i ≡ (i, ps)
unfolding find
find-stop k ps i e = ground (arith, e)

find-next :
    (k : ℕ) (ps : List ℕ) (i : ℕ)
    → (up ps i == i) ≡ false
    → find (suc k) ps i ≡ find k (halved ps i) (up ps (up ps i))
unfolding find
find-next k ps i e = ground (arith, e)

find-root : (fuel d i : ℕ) (ps : List ℕ) → d ≤ fuel → Reaches ps d i → Found ps (find fuel ps i)
unfolding find
find-root zero zero i ps h r = (r, λ e j q. q)
find-root zero (suc d) i ps h r = absurd (omega arith)
find-root (suc k) d i ps h r = elim (Bool-cases (up ps i == i)) [
  | inl e ↦ rw (find-stop k ps i e) ((==_iff (up ps i) i).0 e, λ n j q. q)
  | inr e ↦ rw (find-next k ps i e) (after d h r (λ q. ground (arith, e, q)) (find-root k))
]
  where
    after :
        (n : ℕ)
        → n ≤ suc k
        → Reaches ps n i
        → up ps i ≢ i
        → ((m j : ℕ) (qs : List ℕ) → m ≤ k → Reaches qs m j → Found qs (find k qs j))
        → Found ps (find k (halved ps i) (up ps (up ps i)))
    after zero le q ne rec = absurd (ne q)
    after (suc m) le (inl q) ne rec = absurd (ne q)
    after (suc m) le (inr q) ne rec =
        let f =
          rec m (up ps (up ps i)) (halved ps i) (omega arith)
            (halved-Reaches ps i m (up ps (up ps i)) (Reaches-up ps m (up ps i) q)) in
        (f.0, λ n j t. f.1 n j (halved-Reaches ps i n j t))

Deep-suc : (d : ℕ) (ps : List ℕ) → Deep d ps → Deep (suc d) ps
Deep-suc d ps a i = Reaches-suc ps d i (a i)

-- Two roots are tied together unless they are one.
tied :
    (d : ℕ) (ps qs rs : List ℕ) (x y : ℕ)
    → Deep d ps
    → Found ps (x, qs)
    → Found qs (y, rs)
    → (b : Bool) → (x == y) ≡ b
    → Deep (suc d) (if b then rs else set rs x y)
tied d ps qs rs x y a f g true e k = Reaches-suc rs d k (g.1 d k (f.1 d k (a k)))
tied d ps qs rs x y a f g false e k =
    linked-Reaches rs x y (g.1 0 x f.0) g.0 (λ q. ground (arith, e, q)) d k
      (g.1 d k (f.1 d k (a k)))

module _ (F : FloatOps) where
  unite-Deep :
      (fuel d i j : ℕ) (close : Bool) (ps : List ℕ)
      → d ≤ fuel
      → Deep d ps
      → Deep (suc d) (unite F fuel close i j ps)
  unfolding unite
  unite-Deep fuel d i j false ps h a = Deep-suc d ps a
  unite-Deep fuel d i j true ps h a =
      let first = find-root fuel d i ps h (a i) in
      by (find fuel ps i) first (find fuel (find fuel ps i).1 j)
        (find-root fuel d j (find fuel ps i).1 h (first.1 d j (a j)))
    where
      by :
          (o : ℕ × List ℕ)
          → Found ps o
          → (q : ℕ × List ℕ) → Found o.1 q
          → Deep (suc d) (if o.0 == q.0 then q.1 else set q.1 o.0 q.0)
      by (x, qs) f (y, rs) g = tied d ps qs rs x y a f g (x == y) refl

  unite_with-Deep :
      (fuel d : ℕ) (cell : F32) (s : MotionSample) (i : ℕ) (rest : List MotionSample) (j : ℕ)
      (ps : List ℕ)
      → d + length rest ≤ fuel
      → Deep d ps
      → Deep (d + length rest) (unite_with F fuel cell s i rest j ps)
  unfolding unite_with
  unite_with-Deep fuel d cell s i [] j ps h a = subst (λ n. Deep n ps) (omega arith) a
  unite_with-Deep fuel d cell s i (t ∷ rest) j ps h a =
      subst (λ n. Deep n (unite_with F fuel cell s i (t ∷ rest) j ps)) (omega arith)
        (unite_with-Deep fuel (suc d) cell s i rest (j + 1) (unite F fuel (near F cell s t) i j ps)
          (omega arith) (unite-Deep fuel d i j (near F cell s t) ps (omega arith) a))

  unite_all-Deep :
      (fuel d : ℕ) (cell : F32) (points : List MotionSample) (i : ℕ) (ps : List ℕ)
      → d + length points * length points ≤ fuel
      → Deep d ps
      → Deep fuel (unite_all F fuel cell points i ps)
  unfolding unite_all
  unite_all-Deep fuel d cell [] i ps h a = λ k. Reaches-le ps d fuel k (omega arith) (a k)
  unite_all-Deep fuel d cell (s ∷ rest) i ps h a =
      unite_all-Deep fuel (d + length rest) cell rest (i + 1)
        (unite_with F fuel cell s i rest (i + 1) ps) (omega (arith, square (length rest)))
        (unite_with-Deep fuel d cell s i rest (i + 1) ps (omega (arith, square (length rest))) a)

indices-root : (n i j d : ℕ) → (get_or (indices n i) j d ≡ i + j) ⊎ (get_or (indices n i) j d ≡ d)
indices-root zero i j d = inr refl
indices-root (suc n) i zero d = inl (omega arith)
indices-root (suc n) i (suc j) d = elim (indices-root n (i + 1) j d) [
  | inl e ↦ inl (e ∙ omega arith)
  | inr e ↦ inr e
]

indices-Deep : (n : ℕ) → Deep 0 (indices n 0)
indices-Deep n i = elim (indices-root n 0 i i) [ inl e ↦ e ∙ omega arith | inr e ↦ e ]

-- The parents after a list of searches.
abbrev pub searched : ℕ → List ℕ → List ℕ → List ℕ
searched fuel [] ps = ps
searched fuel (j ∷ js) ps = searched fuel js (find fuel ps j).1

searched-Deep : (fuel : ℕ) (js ps : List ℕ) → Deep fuel ps → Deep fuel (searched fuel js ps)
searched-Deep fuel [] ps a = a
searched-Deep fuel (j ∷ js) ps a =
    searched-Deep fuel js (find fuel ps j).1
      (λ i. (find-root fuel fuel j ps (omega arith) (a j)).1 fuel i (a i))

-- Once all near points are united, and after any searches since, `find` ends at a root (its loop's
-- condition is false there) in as many rounds as motion_blob's fuel allows, the square of the number of
-- points; so it does not run out of fuel.
pub find-ends :
    (F : FloatOps) (cell : F32) (points : List MotionSample) (js : List ℕ) (i : ℕ)
    → let fuel = length points * length points in
      let parent = searched fuel js (unite_all F fuel cell points 0 (indices (length points) 0)) in
      let (r, parent') = find fuel parent i in get_or parent' r r ≡ r
find-ends F cell points js i =
    let fuel = length points * length points in
    let united = unite_all F fuel cell points 0 (indices (length points) 0) in
    (find-root fuel fuel i (searched fuel js united) (omega arith) (
      searched-Deep fuel js united
        (unite_all-Deep F fuel 0 cell points 0 (indices (length points) 0) (omega arith)
          (indices-Deep (length points)))
        i)).0
