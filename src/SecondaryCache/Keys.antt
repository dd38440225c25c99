-- ===== src/SecondaryCache/Keys.antt =====
-- The keys of the cache (gst/nvmmsecondaryinfer/secondary_cache.cpp).
use gst_nvmm_cpp.Common.{
  ℕ, ◌≡◌, ◌≢◌, refl, [], ◌∷◌, Option, none, some, ◌==◌, ltb, arith, Bool-cases, inl, inr,
}
use gst_nvmm_cpp.SecondaryCache.{
  ClassResult, Entry, Entries, SecondaryCache, find, assign, expire_entries, elapsed, store, lookup,
  expire, reset,
}

-- No entry of the list has this key.
abbrev pub Absent : ℕ → Entries → Type 0
Absent id [] = Unit {0}
Absent id ((k, e) ∷ m) = (k ≢ id) × Absent id m

abbrev pub Distinct : Entries → Type 0
Distinct [] = Unit {0}
Distinct ((k, e) ∷ m) = Absent k m × Distinct m

pub find-Absent : (id : ℕ) (m : Entries) → Absent id m → find id m ≡ none
find-Absent id [] a = refl
find-Absent id ((k, e) ∷ m) a = ground (arith, find-Absent id m)

assign-Absent :
    (j id : ℕ) (e : Entry) (m : Entries) → id ≢ j → Absent j m → Absent j (assign id e m)
assign-Absent j id e [] ne a = (ne, tt)
assign-Absent j id e ((k, o) ∷ m) ne a = elim (Bool-cases (k == id)) [
  | inl q ↦ rw q a
  | inr q ↦ rw q (a.0, assign-Absent j id e m ne a.1)
]

pub assign-Distinct : (id : ℕ) (e : Entry) (m : Entries) → Distinct m → Distinct (assign id e m)
assign-Distinct id e [] d = (tt, tt)
assign-Distinct id e ((k, o) ∷ m) d = elim (Bool-cases (k == id)) [
  | inl q ↦ rw q d
  | inr q ↦ rw q (assign-Absent k id e m (ground arith) d.0, assign-Distinct id e m d.1)
]

pub expire-Absent : (j a f : ℕ) (m : Entries) → Absent j m → Absent j (expire_entries a f m)
expire-Absent j a f [] h = tt
expire-Absent j a f ((k, e) ∷ m) h = elim (Bool-cases (ltb a (elapsed f e.last_seen))) [
  | inl q ↦ rw q (expire-Absent j a f m h.1)
  | inr q ↦ rw q (h.0, expire-Absent j a f m h.1)
]

pub expire-Distinct : (a f : ℕ) (m : Entries) → Distinct m → Distinct (expire_entries a f m)
expire-Distinct a f [] d = tt
expire-Distinct a f ((k, e) ∷ m) d = elim (Bool-cases (ltb a (elapsed f e.last_seen))) [
  | inl q ↦ rw q (expire-Distinct a f m d.1)
  | inr q ↦ rw q (expire-Absent k a f m d.0, expire-Distinct a f m d.1)
]

pub lookup_absent :
    (c : SecondaryCache) (id f : ℕ) → find id c.entries ≡ none → lookup c id f ≡ (none, c)
unfolding lookup
lookup_absent c id f e = ground arith

pub lookup_present :
    (c : SecondaryCache) (id f : ℕ) (x : Entry)
    → find id c.entries ≡ some x
    → lookup c id f
      ≡ (some x.result, record c { entries = assign id (record x { last_seen = f }) c.entries })
unfolding lookup
lookup_present c id f x e = ground arith

pub data Call : Type 0 where
  stores : ℕ → ClassResult → ℕ → Call
  looks_up : ℕ → ℕ → Call
  expires : ℕ → Call
  resets : Call

unfoldable pub after_call : SecondaryCache → Call → SecondaryCache
after_call c (stores id r f) = store c id r f
after_call c (looks_up id f) = (lookup c id f).1
after_call c (expires f) = expire c f
after_call c resets = reset c

-- Every operation keeps the keys distinct.
pub after_call-Distinct :
    (c : SecondaryCache) (q : Call) → Distinct c.entries → Distinct (after_call c q).entries
unfolding after_call store lookup expire reset
after_call-Distinct c (stores id r f) d = assign-Distinct id _ c.entries d
after_call-Distinct c (looks_up id f) d = looked (find id c.entries) refl
  where
    looked : (o : Option Entry) → find id c.entries ≡ o → Distinct (lookup c id f).1.entries
    looked none e = rw (lookup_absent c id f e) d
    looked (some x) e = rw (lookup_present c id f x e) (assign-Distinct id _ c.entries d)
after_call-Distinct c (expires f) d = expire-Distinct c.params.max_age f c.entries d
after_call-Distinct c resets d = tt
