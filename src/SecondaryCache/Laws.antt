-- ===== src/SecondaryCache/Laws.antt =====
-- The cache's answers (gst/nvmmsecondaryinfer/secondary_cache.cpp).
use gst_nvmm_cpp.Common.{
  ℕ, ◌+◌, ◌^◌, ◌<◌, ◌≡◌, refl, ◌∙◌, [], ◌∷◌, Option, none, some, Bool, true, if◌then◌else◌, ◌==◌,
  ltb, leb, arith, ==_iff, ==_refl, sym, subst, Bool-cases, inl, inr,
}
use gst_nvmm_cpp.SecondaryCache.{
  ClassResult, Entry, Entries, SecondaryCache, find, assign, expire_entries, elapsed, due, store,
  lookup, expire,
}
use gst_nvmm_cpp.SecondaryCache.Keys.{
  Absent, Distinct, find-Absent, expire-Absent, assign-Distinct, lookup_present,
}

pub find-assign :
    (j id : ℕ) (e : Entry) (m : Entries)
    → find j (assign id e m) ≡ (if id == j then some e else find j m)
find-assign j id e [] = refl
find-assign j id e ((k, o) ∷ m) = ground (arith, find-assign j id e m)

elapsed_since : (t k : ℕ) → t + k < 2 ^ 64 → elapsed (t + k) t ≡ k
elapsed_since t k h = omega arith

abbrev result_of : Option Entry → Option ClassResult
result_of none = none
result_of (some e) = some e.result

lookup_result : (c : SecondaryCache) (j f : ℕ) → (lookup c j f).0 ≡ result_of (find j c.entries)
unfolding lookup
lookup_result c j f = ground arith

abbrev due_of : ℕ → ℕ → Option Entry → Bool
due_of interval f none = true
due_of interval f (some e) = leb interval (elapsed f e.last_infer)

due_result :
    (c : SecondaryCache) (j f : ℕ) → due c j f ≡ due_of c.params.infer_interval f (find j c.entries)
unfolding due
due_result c j f = ground arith

find-store :
    (c : SecondaryCache) (id j : ℕ) (r : ClassResult) (t : ℕ)
    → find j (store c id r t).entries ≡ (
        if id == j
        then some (record { result = r; last_infer = t; last_seen = t })
        else find j c.entries)
unfolding store
find-store c id j r t = find-assign j id _ c.entries

-- After a store the track's own result is looked up, and the answers for other tracks are as before.
pub lookup-store :
    (c : SecondaryCache) (id j : ℕ) (r : ClassResult) (t f : ℕ)
    → (lookup (store c id r t) j f).0 ≡ (if id == j then some r else (lookup c j f).0)
lookup-store c id j r t f =
    ground (arith, lookup_result (store c id r t) j f, lookup_result c j f, find-store c id j r t)

params-store :
    (c : SecondaryCache) (id : ℕ) (r : ClassResult) (t : ℕ) → (store c id r t).params ≡ c.params
unfolding store
params-store c id r t = refl

-- A stored track is due again exactly when the inference interval has passed; whether another track
-- is due does not change. Frame numbers do not wrap in between.
pub due-store :
    (c : SecondaryCache) (id j : ℕ) (r : ClassResult) (t k : ℕ)
    → t + k < 2 ^ 64
    → due (store c id r t) j (t + k)
      ≡ (if id == j then leb c.params.infer_interval k else due c j (t + k))
due-store c id j r t k h = elim (Bool-cases (id == j)) [
  | inl e ↦ rw (
    due_result (store c id r t) j (t + k),
    find-store c id j r t,
    e,
    elapsed_since t k h,
    params-store c id r t,
  )
  | inr e ↦
      rw (due_result (store c id r t) j (t + k), find-store c id j r t, e, params-store c id r t)
        (sym (due_result c j (t + k)))
]

-- An entry survives if its age is within the limit.
abbrev pub kept : ℕ → ℕ → Option Entry → Option Entry
kept max_age f none = none
kept max_age f (some e) = if ltb max_age (elapsed f e.last_seen) then none else some e

pub find-expire :
    (a f j : ℕ) (m : Entries) → Distinct m → find j (expire_entries a f m) ≡ kept a f (find j m)
find-expire a f j [] d = refl
find-expire a f j ((k, e) ∷ m) d = elim (Bool-cases (ltb a (elapsed f e.last_seen))) [
  | inl old ↦ rw old (elim (Bool-cases (k == j)) [
    | inl same ↦
        rw (same, old)
          (find-Absent j _ (
            subst (λ x. Absent x (expire_entries a f m)) ((==_iff k j).0 same)
              (expire-Absent k a f m d.0)))
    | inr other ↦ rw other (find-expire a f j m d.1)
  ])
  | inr young ↦ rw young (elim (Bool-cases (k == j)) [
    | inl same ↦ rw (same, young)
    | inr other ↦ rw (other) (find-expire a f j m d.1)
  ])
]

-- Expiry removes exactly the tracks that were last seen more than `max_age` frames ago.
pub expire_lem :
    (c : SecondaryCache) (f j : ℕ)
    → Distinct c.entries
    → find j (expire c f).entries ≡ kept c.params.max_age f (find j c.entries)
unfolding expire
expire_lem c f j d = find-expire c.params.max_age f j c.entries d

seen_result :
    (c : SecondaryCache) (id t k : ℕ) (x : Entry)
    → Distinct c.entries
    → t + k < 2 ^ 64
    → find id c.entries ≡ some x
    → find id (expire (lookup c id t).1 (t + k)).entries
      ≡ (if ltb c.params.max_age k then none else some (record x { last_seen = t }))
seen_result c id t k x d h e = rw (lookup_present c id t x e) (
    expire_lem (record c { entries = assign id (record x { last_seen = t }) c.entries }) (t + k) id
      (assign-Distinct id _ c.entries d)
    ∙ rw
        (find-assign id id (record x { last_seen = t }) c.entries, ==_refl id, elapsed_since t k h))

-- A track that is looked up is kept by every expiry within the next `max_age` frames, with its
-- result, however long ago it was inferred; an expiry later than that removes it.
pub expire-lookup :
    (c : SecondaryCache) (id : ℕ) (r : ClassResult) (t k : ℕ)
    → Distinct c.entries
    → t + k < 2 ^ 64
    → (lookup c id t).0 ≡ some r
    → (lookup (expire (lookup c id t).1 (t + k)) id (t + k)).0
      ≡ (if ltb c.params.max_age k then none else some r)
expire-lookup c id r t k d h e = found (find id c.entries) refl
  where
    found :
        (o : Option Entry)
        → find id c.entries ≡ o
        → (lookup (expire (lookup c id t).1 (t + k)) id (t + k)).0
          ≡ (if ltb c.params.max_age k then none else some r)
    found none q = absurd (ground (arith, q, lookup_result c id t))
    found (some x) q = ground (
      arith,
      lookup_result (expire (lookup c id t).1 (t + k)) id (t + k),
      lookup_result c id t,
      seen_result c id t k x d h q,
    )
