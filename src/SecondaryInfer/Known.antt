-- ===== src/SecondaryInfer/Known.antt =====
-- What the class meta says of a tracked object (gst/nvmmsecondaryinfer/gstnvmmsecondaryinfer.cpp).
use gst_nvmm_cpp.Common.{
  ℕ, ◌+◌, ◌-◌, ◌%◌, ◌^◌, ◌<◌, ◌≤◌, ◌≡◌, ◌≢◌, refl, ap, sym, ◌∙◌, List, [], ◌∷◌, Option, none, some,
  false, length, get_or, ◌==◌, arith, Bool-cases, inl, inr, ==_false,
}
use gst_nvmm_cpp.Common.Int.{is_negative}
use gst_nvmm_cpp.Common.Float.{FloatOps}
use gst_nvmm_cpp.DetMeta.{BufferMeta}
use gst_nvmm_cpp.Draw.{ClassEntry}
use gst_nvmm_cpp.Gate.Element.{F64, no_object}
use gst_nvmm_cpp.Kalman.{Doubles}
use gst_nvmm_cpp.SecondaryCache.{Entry, SecondaryCache, find, elapsed, expire}
use gst_nvmm_cpp.SecondaryCache.Keys.{Distinct, expire-Distinct}
use gst_nvmm_cpp.SecondaryCache.Laws.{kept, find-expire}
use gst_nvmm_cpp.SecondaryInfer.{Text, SecondaryInfer}
use gst_nvmm_cpp.SecondaryInfer.Classify.{
  Incoming, unclassified, classify_all, classify_meta, scale, transform_ip,
}
use gst_nvmm_cpp.SecondaryInfer.Steps.{
  IsSound, Change, Change-refl, classify_all-Change, classify_all-known,
}

kept-some : (age f : ℕ) (o : Option Entry) (y : Entry) → kept age f o ≡ some y → o ≡ some y
kept-some age f none y h = h
kept-some age f (some x) y h = ground arith

expire-IsSound : (c : SecondaryCache) (f : ℕ) → IsSound c.entries → IsSound (expire c f).entries
unfolding expire
expire-IsSound c f (d, g) = (
  expire-Distinct c.params.max_age f c.entries d,
  λ j y h. g j y (kept-some c.params.max_age f _ y (sym (find-expire _ f j c.entries d) ∙ h)),
)

find_young :
    (c : SecondaryCache) (f id : ℕ) (x : Entry)
    → Distinct c.entries
    → find id c.entries ≡ some x
    → elapsed f x.last_seen ≤ c.params.max_age
    → find id (expire c f).entries ≡ some x
unfolding expire
find_young c f id x d h young = find-expire c.params.max_age f id c.entries d ∙ rw h (ground arith)

params-expire : (c : SecondaryCache) (f : ℕ) → (expire c f).params ≡ c.params
unfolding expire
params-expire c f = refl

elapsed_between : (f t : ℕ) → t ≤ f → f < 2 ^ 64 → elapsed f t ≡ f - t
elapsed_between f t h k = omega arith

-- The element runs, and the track `id` has an entry that was seen in frame `t` or later.
record Holds (age id t : ℕ) (s : SecondaryInfer) : Type 0 where
  cache : SecondaryCache
  held : s.cache ≡ some cache
  limit : cache.params.max_age ≡ age
  sound : IsSound cache.entries
  entry : Entry
  found : find id cache.entries ≡ some entry
  late : t ≤ entry.last_seen
  past : entry.last_seen < s.frame_no

module _ (F : FloatOps) (D : Doubles) (exp : F64 → F64) (class_text : ℕ → Text) where
  -- The state after a buffer, and after some, of which the newest is the list's first.
  abbrev pub step : Incoming → SecondaryInfer → SecondaryInfer
  step buf s = elim (transform_ip F D exp class_text buf s) [ none ↦ s | some r ↦ r.1 ]

  pub after : List Incoming → SecondaryInfer → SecondaryInfer
  after [] s = s
  after (buf ∷ hist) s = step buf (after hist s)

  classify_meta-Change :
      (buf : Incoming) (fno : ℕ) (c : SecondaryCache) (s : SecondaryInfer) (det : Option BufferMeta)
      (surface : Option (ℕ × ℕ))
      → Change fno c (classify_meta F D exp class_text buf fno c s det surface).1
  unfolding classify_meta
  classify_meta-Change buf fno c s none surface = Change-refl fno c
  classify_meta-Change buf fno c s (some m) none = Change-refl fno c
  classify_meta-Change buf fno c s (some m) (some (w, h)) = elim (Bool-cases (m.num_objects == 0)) [
    | inl z ↦ rw z (Change-refl fno c)
    | inr nz ↦
        rw nz (classify_all-Change F D exp class_text s buf _ _ fno m.objects 0 m.num_objects c)
  ]

  abbrev met :
      Incoming → SecondaryInfer → SecondaryCache → Option (List ClassEntry) × SecondaryCache
  met buf s c =
      classify_meta F D exp class_text buf s.frame_no (expire c s.frame_no) s buf.det buf.surface

  transform_ip-met :
      (buf : Incoming) (s : SecondaryInfer) (c : SecondaryCache)
      → s.cache ≡ some c
      → transform_ip F D exp class_text buf s
        ≡ some (
          (met buf s c).0,
          record s { cache = some (met buf s c).1; frame_no = (s.frame_no + 1) % 2 ^ 64 },
        )
  unfolding transform_ip
  transform_ip-met buf s c h = ground arith

  module _ (age id t : ℕ) where
    expire-found :
        (s : SecondaryInfer) (h : Holds age id t s)
        → s.frame_no ≤ t + age
        → s.frame_no + 1 < 2 ^ 64
        → find id (expire h.cache s.frame_no).entries ≡ some h.entry
    expire-found s h young small =
        find_young h.cache s.frame_no id h.entry h.sound.0 h.found
          (omega (arith, elapsed_between s.frame_no h.entry.last_seen, h.late, h.past, h.limit))

    step-Holds :
        (buf : Incoming) (s : SecondaryInfer)
        → Holds age id t s
        → s.frame_no ≤ t + age
        → s.frame_no + 1 < 2 ^ 64
        → Holds age id t (step buf s) × ((step buf s).frame_no ≡ s.frame_no + 1)
    step-Holds buf s h young small =
        let v =
          classify_meta-Change buf s.frame_no (expire h.cache s.frame_no) s buf.det buf.surface in
        let (y, found, seen) = v.grows id h.entry (expire-found s h young small) in
        rw (transform_ip-met buf s h.cache h.held, step)
          (
            record {
              cache = (met buf s h.cache).1;
              held = refl;
              limit = ap (λ p. p.max_age) (v.params ∙ params-expire h.cache s.frame_no) ∙ h.limit;
              sound = v.sound (expire-IsSound h.cache s.frame_no h.sound);
              entry = y;
              found = found;
              late = ground (arith, h.late, h.past);
              past = ground (arith, h.past);
            },
            omega arith,
          )

    after-Holds :
        (hist : List Incoming) (s : SecondaryInfer)
        → Holds age id t s
        → s.frame_no + length hist ≤ t + age + 1
        → s.frame_no + length hist < 2 ^ 64
        → Holds age id t (after hist s) × ((after hist s).frame_no ≡ s.frame_no + length hist)
    unfolding after
    after-Holds [] s h young small = (h, omega arith)
    after-Holds (buf ∷ hist) s h young small =
        let (h', n) = after-Holds hist s h (omega arith) (omega arith) in
        let (h'', n') = step-Holds buf (after hist s) h' (omega (arith, n)) (omega (arith, n)) in
        (h'', omega (arith, n, n'))

  met_objects :
      (buf : Incoming) (s : SecondaryInfer) (c : SecondaryCache) (m : BufferMeta) (w h : ℕ)
      → buf.det ≡ some m
      → buf.surface ≡ some (w, h)
      → 0 < m.num_objects
      → let (es, c') =
          classify_all F D exp class_text s buf
            (scale F D exp class_text w m.infer_width)
            (scale F D exp class_text h m.infer_height)
            s.frame_no
            m.objects
            0
            m.num_objects
            (expire c s.frame_no) in
        met buf s c ≡ (some es, c')
  unfolding classify_meta
  met_objects buf s c m w h p q n =
      let at = λ (det : Option BufferMeta) (surface : Option (ℕ × ℕ)).
        classify_meta F D exp class_text buf s.frame_no (expire c s.frame_no) s det surface in
      ap (λ det. at det buf.surface) p
      ∙ (ap (λ surface. at (some m) surface) q ∙ rw (==_false m.num_objects 0 (omega arith)) refl)

  -- The keys of the cache are distinct and its classes are not negative. A track that is in it, and whose
  -- object, with an identifier other than 0, stands on a buffer with a surface no more than max_age frames
  -- after the track was last seen, has a class there that is not negative, whatever stood on the
  -- buffers in between and whether or not inference works on any of them. Frame numbers do not reach
  -- 2^64.
  pub transform_ip-known :
      (hist : List Incoming) (s : SecondaryInfer) (c : SecondaryCache) (x : Entry) (buf : Incoming)
      (m : BufferMeta) (w h j : ℕ)
      → s.cache ≡ some c
      → IsSound c.entries
      → find (get_or m.objects j no_object).tracker_id c.entries ≡ some x
      → (get_or m.objects j no_object).tracker_id ≢ 0
      → x.last_seen < s.frame_no
      → s.frame_no + length hist ≤ x.last_seen + c.params.max_age
      → s.frame_no + length hist + 1 < 2 ^ 64
      → buf.det ≡ some m
      → buf.surface ≡ some (w, h)
      → j < m.num_objects
      → (r : List ClassEntry × SecondaryInfer) × (transform_ip F D exp class_text buf (after hist s)
          ≡ some (some r.0, r.1))
        × (is_negative (get_or r.0 j unclassified).class_id ≡ false)
  transform_ip-known hist s c x buf m w h j held sound found nz past young small p q n =
      let id = (get_or m.objects j no_object).tracker_id in
      let start : Holds c.params.max_age id x.last_seen s = record {
        cache = c;
        held = held;
        limit = refl;
        sound = sound;
        entry = x;
        found = found;
        late = omega arith;
        past = past;
      } in
      let (u, f) =
        after-Holds c.params.max_age id x.last_seen hist s start (omega arith) (omega arith) in
      let s' = after hist s in
      let sx = scale F D exp class_text w m.infer_width in
      let sy = scale F D exp class_text h m.infer_height in
      let fresh = expire u.cache s'.frame_no in
      let (es, c') =
        classify_all F D exp class_text s' buf sx sy s'.frame_no m.objects 0 m.num_objects fresh in
      let (class, seen) =
        classify_all-known F D exp class_text s' buf sx sy s'.frame_no m.objects j 0 m.num_objects j
          fresh u.entry (omega arith) n (expire-IsSound u.cache s'.frame_no u.sound) nz
          (expire-found c.params.max_age id x.last_seen s' u (omega (arith, f))
            (omega (arith, f))) in
      (
        (es, record s' { cache = some c'; frame_no = (s'.frame_no + 1) % 2 ^ 64 }),
        transform_ip-met buf s' u.cache u.held
            ∙ rw (met_objects buf s' u.cache m w h p q (omega arith)) refl,
        class,
      )
