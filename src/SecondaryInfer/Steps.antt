-- ===== src/SecondaryInfer/Steps.antt =====
-- What the steps of transform_ip do to the cache (gst/nvmmsecondaryinfer/gstnvmmsecondaryinfer.cpp).
use gst_nvmm_cpp.Common.{
  ℕ, zero, suc, ◌+◌, ◌<◌, ◌≡◌, ◌≢◌, refl, ap, sym, subst, ◌∙◌, List, Option, none, some, Bool, true,
  false, get_or, ◌==◌, if◌then◌else◌, arith, Bool-cases, Option-cases, ◌⊎◌, inl, inr, ==_refl,
  ==_false,
}
use gst_nvmm_cpp.Common.Int.{is_negative}
use gst_nvmm_cpp.Common.Float.{F32, FloatOps}
use gst_nvmm_cpp.Ipc.Protocol.{DetObject}
use gst_nvmm_cpp.Draw.{ClassEntry}
use gst_nvmm_cpp.Gate.Element.{F64, no_object}
use gst_nvmm_cpp.Kalman.{Doubles}
use gst_nvmm_cpp.SecondaryCache.{ClassResult, Entry, Entries, SecondaryCache, find, assign, store}
use gst_nvmm_cpp.SecondaryCache.Keys.{Distinct, assign-Distinct, lookup_absent, lookup_present}
use gst_nvmm_cpp.SecondaryCache.Laws.{find-assign}
use gst_nvmm_cpp.SecondaryInfer.{Text, SecondaryInfer}
use gst_nvmm_cpp.SecondaryInfer.Classify.{
  Incoming, entry_of, unclassified, look, keep_result, settle, infer, classify, classify_all,
}

-- Every cached class is one.
abbrev pub Classified : Entries → Type 0
Classified m = (j : ℕ) (x : Entry) → find j m ≡ some x → is_negative x.result.class_id ≡ false

abbrev pub IsSound : Entries → Type 0
IsSound m = Distinct m × Classified m

-- What is in `m` is in `m'`, and was seen when it was or in frame `fno`.
abbrev pub Grows : ℕ → Entries → Entries → Type 0
Grows fno m m' =
    (j : ℕ) (x : Entry)
    → find j m ≡ some x
    → (y : Entry) × (find j m' ≡ some y) × ((y.last_seen ≡ x.last_seen) ⊎ (y.last_seen ≡ fno))

abbrev pub SeenAt : ℕ → ℕ → Entries → Type 0
SeenAt fno id m = (y : Entry) × (find id m ≡ some y) × (y.last_seen ≡ fno)

Grows-refl : (fno : ℕ) (m : Entries) → Grows fno m m
Grows-refl fno m j x h = (x, h, inl refl)

Grows-trans : (fno : ℕ) (a b c : Entries) → Grows fno a b → Grows fno b c → Grows fno a c
Grows-trans fno a b c g h j x e =
    let (y, f, s) = g j x e in let (z, k, t) = h j y f in (z, k, ground arith)

Grows-SeenAt : (fno id : ℕ) (m m' : Entries) → Grows fno m m' → SeenAt fno id m → SeenAt fno id m'
Grows-SeenAt fno id m m' g (x, e, s) = let (y, f, t) = g id x e in (y, f, ground arith)

module _ (fno id : ℕ) (e : Entry) (m : Entries) where
  assign-Grows : e.last_seen ≡ fno → Grows fno m (assign id e m)
  assign-Grows h j x f = elim (Bool-cases (id == j)) [
    | inl same ↦ (e, find-assign j id e m ∙ rw same refl, inr h)
    | inr other ↦ (x, find-assign j id e m ∙ rw other f, inl refl)
  ]

  assign-SeenAt : e.last_seen ≡ fno → SeenAt fno id (assign id e m)
  assign-SeenAt h = (e, find-assign id id e m ∙ rw (==_refl id) refl, h)

  assign-Classified :
      is_negative e.result.class_id ≡ false → Classified m → Classified (assign id e m)
  assign-Classified h c j x f = elim (Bool-cases (id == j)) [
    | inl same ↦
        let g : some e ≡ some x = rw same at (sym (find-assign j id e m) ∙ f) in
        let k : e ≡ x = cc in ap (λ (y : Entry). is_negative y.result.class_id) (sym k) ∙ h
    | inr other ↦
        let g : find j m ≡ some x = rw other at (sym (find-assign j id e m) ∙ f) in c j x g
  ]

  assign-IsSound : is_negative e.result.class_id ≡ false → IsSound m → IsSound (assign id e m)
  assign-IsSound h (d, c) = (assign-Distinct id e m d, assign-Classified h c)

-- What a step in frame `fno` does to the cache.
pub record Change (fno : ℕ) (c c' : SecondaryCache) : Type 0 where
  pub params : c'.params ≡ c.params
  pub grows : Grows fno c.entries c'.entries
  pub sound : IsSound c.entries → IsSound c'.entries

pub Change-refl : (fno : ℕ) (c : SecondaryCache) → Change fno c c
Change-refl fno c = record { params = refl; grows = Grows-refl fno c.entries; sound = λ h. h }

Change-trans : (fno : ℕ) (a b c : SecondaryCache) → Change fno a b → Change fno b c → Change fno a c
Change-trans fno a b c u v = record {
  params = v.params ∙ u.params;
  grows = Grows-trans fno a.entries b.entries c.entries u.grows v.grows;
  sound = λ h. v.sound (u.sound h);
}

seen_entry :
    (c : SecondaryCache) (id fno : ℕ) (x : Entry)
    → find id c.entries ≡ some x
    → Change fno c (record c { entries = assign id (record x { last_seen = fno }) c.entries })
seen_entry c id fno x h = record {
  params = refl;
  grows = assign-Grows fno id (record x { last_seen = fno }) c.entries refl;
  sound = λ s. assign-IsSound fno id (record x { last_seen = fno }) c.entries (s.1 id x h) s;
}

look-Change : (c : SecondaryCache) (id fno : ℕ) → Change fno c (look c id fno).1
unfolding look
look-Change c id fno = elim (Bool-cases (id == 0)) [
  | inl z ↦ rw z (Change-refl fno c)
  | inr nz ↦ rw nz (elim (Option-cases (find id c.entries)) [
    | inl h ↦ rw (lookup_absent c id fno h) (Change-refl fno c)
    | inr (x, h) ↦ rw (lookup_present c id fno x h) (seen_entry c id fno x h)
  ])
]

look_known :
    (c : SecondaryCache) (id fno : ℕ) (x : Entry)
    → id ≢ 0
    → find id c.entries ≡ some x
    → ((look c id fno).0 ≡ some x.result) × SeenAt fno id (look c id fno).1.entries
unfolding look
look_known c id fno x nz h =
    rw (==_false id 0 nz, lookup_present c id fno x h)
      (refl, assign-SeenAt fno id (record x { last_seen = fno }) c.entries refl)

keep_result-Change :
    (c : SecondaryCache) (id fno : ℕ) (e : ClassEntry)
    → is_negative e.class_id ≡ false
    → Change fno c (keep_result c id e fno)
unfolding keep_result store
keep_result-Change c id fno e h = elim (Bool-cases (id == 0)) [
  | inl z ↦ rw z (Change-refl fno c)
  | inr nz ↦
      let new : Entry = record {
        result = record { class_id = e.class_id; confidence = e.confidence; label = e.label };
        last_infer = fno;
        last_seen = fno;
      } in
      rw nz (record {
        params = refl;
        grows = assign-Grows fno id new c.entries refl;
        sound = assign-IsSound fno id new c.entries h;
      })
]

-- What an object's step gives: nothing new, or a confident inference.
abbrev Settled : Option ClassResult → SecondaryCache → ℕ → ℕ → ClassEntry × SecondaryCache → Type 0
Settled cached c id fno r =
    (r ≡ (entry_of cached, c))
    ⊎ ((e : ClassEntry) × (is_negative e.class_id ≡ false) × (r ≡ (e, keep_result c id e fno)))

settle-Settled :
    (skipped : Bool) (answer : Option ClassEntry) (cached : Option ClassResult) (c : SecondaryCache)
    (id fno : ℕ)
    → ((e : ClassEntry) → answer ≡ some e → is_negative e.class_id ≡ false)
    → Settled cached c id fno
        (if skipped then (entry_of cached, c) else settle answer (entry_of cached) id fno c)
settle-Settled true answer cached c id fno h = inl refl
settle-Settled false none cached c id fno h = inl refl
settle-Settled false (some e) cached c id fno h = inr (e, h e refl, refl)

module _ (F : FloatOps) (D : Doubles) (exp : F64 → F64) (class_text : ℕ → Text) where
  class_of-infer :
      (s : SecondaryInfer) (v : Option (List F32)) (e : ClassEntry)
      → infer F D exp class_text s v ≡ some e
      → is_negative e.class_id ≡ false
  unfolding infer
  class_of-infer s none e h = absurd (cc)
  class_of-infer s (some v) e h = ground arith

  classify-Settled :
      (s : SecondaryInfer) (buf : Incoming) (sx sy : F32) (fno i : ℕ) (o : DetObject)
      (c : SecondaryCache)
      → let (cached, c') = look c o.tracker_id fno in
        Settled cached c' o.tracker_id fno (classify F D exp class_text s buf sx sy fno i o c)
  unfolding classify
  classify-Settled s buf sx sy fno i o c =
      let (cached, c') = look c o.tracker_id fno in
      settle-Settled _ _ cached c' o.tracker_id fno (class_of-infer s _)

  -- What the meta says of the object: its track's class, cached or new, where the track is known.
  record Classifies (fno : ℕ) (o : DetObject) (c : SecondaryCache) (r : ClassEntry × SecondaryCache)
      : Type 0 where
    change : Change fno c r.1
    known :
        (x : Entry)
        → IsSound c.entries
        → o.tracker_id ≢ 0
        → find o.tracker_id c.entries ≡ some x
        → (is_negative r.0.class_id ≡ false) × SeenAt fno o.tracker_id r.1.entries

  Settled-Classifies :
      (fno : ℕ) (o : DetObject) (c : SecondaryCache) (r : ClassEntry × SecondaryCache)
      → let (cached, c') = look c o.tracker_id fno in
        Settled cached c' o.tracker_id fno r → Classifies fno o c r
  Settled-Classifies fno o c r (inl e) = subst (Classifies fno o c) (sym e) (record {
    change = look-Change c o.tracker_id fno;
    known = λ x s nz h.
        let (cached, seen) = look_known c o.tracker_id fno x nz h in
        (rw cached (s.1 o.tracker_id x h), seen);
  })
  Settled-Classifies fno o c r (inr (new, ne, e)) =
      let c' = (look c o.tracker_id fno).1 in
      let kept = keep_result-Change c' o.tracker_id fno new ne in
      subst (Classifies fno o c) (sym e) (record {
        change =
            Change-trans fno c c' (keep_result c' o.tracker_id new fno)
              (look-Change c o.tracker_id fno) kept;
        known = λ x s nz h. (
          ne,
          Grows-SeenAt fno o.tracker_id c'.entries (keep_result c' o.tracker_id new fno).entries
              kept.grows (look_known c o.tracker_id fno x nz h).1,
        );
      })

  module _ (s : SecondaryInfer) (buf : Incoming) (sx sy : F32) (fno : ℕ)
      (objects : List DetObject) where
    abbrev pub all_of : ℕ → ℕ → SecondaryCache → List ClassEntry × SecondaryCache
    all_of i n c = classify_all F D exp class_text s buf sx sy fno objects i n c

    abbrev one_of : ℕ → SecondaryCache → ClassEntry × SecondaryCache
    one_of i c = classify F D exp class_text s buf sx sy fno i (get_or objects i no_object) c

    classify-Classifies :
        (i : ℕ) (c : SecondaryCache) → Classifies fno (get_or objects i no_object) c (one_of i c)
    classify-Classifies i c =
        Settled-Classifies fno (get_or objects i no_object) c _
          (classify-Settled s buf sx sy fno i (get_or objects i no_object) c)

    pub classify_all-Change : (i n : ℕ) (c : SecondaryCache) → Change fno c (all_of i n c).1
    unfolding classify_all
    classify_all-Change i zero c = Change-refl fno c
    classify_all-Change i (suc n) c =
        Change-trans fno c (one_of i c).1 (all_of (i + 1) n (one_of i c).1).1
          (classify-Classifies i c).change (classify_all-Change (i + 1) n (one_of i c).1)

    pub classify_all-known :
        (j i n k : ℕ) (c : SecondaryCache) (x : Entry)
        → i + k ≡ j
        → k < n
        → IsSound c.entries
        → (get_or objects j no_object).tracker_id ≢ 0
        → find (get_or objects j no_object).tracker_id c.entries ≡ some x
        → (is_negative (get_or (all_of i n c).0 k unclassified).class_id ≡ false)
          × SeenAt fno (get_or objects j no_object).tracker_id (all_of i n c).1.entries
    unfolding classify_all
    classify_all-known j i zero k c x e h sound nz f = absurd (omega arith)
    classify_all-known j i (suc n) zero c x e h sound nz f =
        let c' = (one_of i c).1 in
        let same : i ≡ j = omega arith in
        let u =
          subst (λ (m : ℕ). Classifies fno (get_or objects m no_object) c (one_of i c)) same
            (classify-Classifies i c) in
        let (class, seen) = u.known x sound nz f in
        (
          class,
          Grows-SeenAt fno (get_or objects j no_object).tracker_id c'.entries _
              (classify_all-Change (i + 1) n c').grows seen,
        )
    classify_all-known j i (suc n) (suc k) c x e h sound nz f =
        let v = (classify-Classifies i c).change in
        let (y, g, t) = v.grows (get_or objects j no_object).tracker_id x f in
        classify_all-known j (i + 1) n k (one_of i c).1 y (omega arith) (omega arith)
          (v.sound sound) nz g
