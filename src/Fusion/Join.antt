-- ===== src/Fusion/Join.antt =====
-- The pairs that aggregate makes of two branches (gst/nvmmfusion/gstnvmmfusion.cpp).
use gst_nvmm_cpp.Common.{
  ℕ, zero, suc, ◌+◌, ◌<◌, ◌≤◌, ◌≡◌, refl, ap, sym, subst, ◌∙◌, Bool-cases, List, [], ◌∷◌, ◌++◌,
  Option, none, some, Bool, true, false, ◌||◌, ◌==◌, ltb, ltb→lt, length, if◌then◌else◌, arith, ◌⊎◌,
  inl, inr,
}
use gst_nvmm_cpp.Common.Float.{FloatOps}
use gst_nvmm_cpp.Gate.Element.{F64, DoubleOps}
use gst_nvmm_cpp.Motion.{MotionOps}
use gst_nvmm_cpp.Fusion.{
  Buffer, Fusion, Fused, Flow, eos, need_data, pushed, fuse, join_heads, aggregate,
}

-- The buffers have valid time stamps from `lo` on, each later than the one before.
abbrev pub Ascending : ℕ → List Buffer → Type 0
Ascending lo [] = Unit
Ascending lo (b ∷ bs) = (t : ℕ) × (b.pts ≡ some t) × (lo ≤ t) × Ascending (suc t) bs

abbrev pub same_time : Option ℕ → Option ℕ → Bool
same_time none q = false
same_time (some t) none = false
same_time (some t) (some u) = t == u

-- The buffer with the same time stamp.
abbrev pub partner : Buffer → List Buffer → Option Buffer
partner d [] = none
partner d (f ∷ fs) = if same_time d.pts f.pts then some f else partner d fs

-- Every buffer that has a partner, with it.
abbrev pub joined : (Buffer → Buffer → Fused) → List Buffer → List Buffer → List Fused
joined k [] fs = []
joined k (d ∷ ds) fs =
    let rest = joined k ds fs in elim (partner d fs) [ none ↦ rest | some f ↦ k d f ∷ rest ]

abbrev pub emitted : Flow → List Fused
emitted eos = []
emitted need_data = []
emitted (pushed b) = b ∷ []

abbrev pub loaded : Bool → Bool → F64 → List Buffer → List Buffer → Fusion
loaded set asked threshold ds fs = record {
  det_pad = record { queue = ds; eos = false };
  flow_pad = record { queue = fs; eos = false };
  src_caps_set = set;
  compute_motion = asked;
  motion_threshold = threshold;
}

abbrev pub Drained : Fusion → Type 0
Drained s = (s.det_pad.queue ≡ []) ⊎ (s.flow_pad.queue ≡ [])

partner-early :
    (d : Buffer) (t lo : ℕ) (fs : List Buffer)
    → d.pts ≡ some t
    → t < lo
    → Ascending lo fs
    → partner d fs ≡ none
partner-early d t lo [] p h a = refl
partner-early d t lo (f ∷ fs) p h (u, q, l, a) =
    ground (arith, partner-early d t (suc u) fs p (omega arith) a)

joined-late :
    (k : Buffer → Buffer → Fused) (f : Buffer) (u lo : ℕ) (ds fs : List Buffer)
    → f.pts ≡ some u
    → u < lo
    → Ascending lo ds
    → joined k ds (f ∷ fs) ≡ joined k ds fs
joined-late k f u lo [] fs q h a = refl
joined-late k f u lo (d ∷ ds) fs q h (t, p, l, a) =
    ground (arith, joined-late k f u (suc t) ds fs q (omega arith) a)

joined-nil : (k : Buffer → Buffer → Fused) (ds : List Buffer) → joined k ds [] ≡ []
joined-nil k [] = refl
joined-nil k (d ∷ ds) = joined-nil k ds

module _ (k : Buffer → Buffer → Fused) (d f : Buffer) (ds fs : List Buffer) (t u : ℕ)
    (p : d.pts ≡ some t) (q : f.pts ≡ some u) where
  joined_older : t < u → Ascending (suc u) fs → joined k (d ∷ ds) (f ∷ fs) ≡ joined k ds (f ∷ fs)
  joined_older h a = ground (arith, partner-early d t (suc u) fs p (omega arith) a)

  joined_newer : u < t → Ascending (suc t) ds → joined k (d ∷ ds) (f ∷ fs) ≡ joined k (d ∷ ds) fs
  joined_newer h a = joined-late k f u t (d ∷ ds) fs q h (t, p, omega arith, a)

  joined_same : t ≡ u → Ascending (suc t) ds → joined k (d ∷ ds) (f ∷ fs) ≡ k d f ∷ joined k ds fs
  joined_same h a = ground (arith, joined-late k f u (suc t) ds fs q (omega arith) a)

module _ (F : FloatOps) (D : DoubleOps) (M : MotionOps) (caps : Bool) where
  -- The calls of `aggregate`, one after another.
  pub run : ℕ → Fusion → List Fused × Fusion
  run zero s = ([], s)
  run (suc n) s =
      let (flow, s') = aggregate F D M caps s in
      let (rest, s'') = run n s' in (emitted flow ++ rest, s'')

  module _ (asked : Bool) (threshold : F64) where
    abbrev fuse_heads : Buffer → Buffer → Fused
    fuse_heads = fuse F D M asked threshold

    aggregate_older :
        (set : Bool) (d f : Buffer) (ds fs : List Buffer) (t u : ℕ)
        → d.pts ≡ some t
        → f.pts ≡ some u
        → t < u
        → aggregate F D M caps (loaded set asked threshold (d ∷ ds) (f ∷ fs))
          ≡ (need_data, loaded set asked threshold ds (f ∷ fs))
    unfolding aggregate join_heads
    aggregate_older set d f ds fs t u p q h = ground arith

    aggregate_newer :
        (set : Bool) (d f : Buffer) (ds fs : List Buffer) (t u : ℕ)
        → d.pts ≡ some t
        → f.pts ≡ some u
        → u < t
        → aggregate F D M caps (loaded set asked threshold (d ∷ ds) (f ∷ fs))
          ≡ (need_data, loaded set asked threshold (d ∷ ds) fs)
    unfolding aggregate join_heads
    aggregate_newer set d f ds fs t u p q h = ground arith

    aggregate_same :
        (set : Bool) (d f : Buffer) (ds fs : List Buffer) (t : ℕ)
        → d.pts ≡ some t
        → f.pts ≡ some t
        → (set || caps) ≡ true
        → aggregate F D M caps (loaded set asked threshold (d ∷ ds) (f ∷ fs))
          ≡ (pushed (fuse_heads d f), loaded true asked threshold ds fs)
    unfolding aggregate join_heads
    aggregate_same set d f ds fs t p q c = ground arith

    abbrev Joins : ℕ → Bool → List Buffer → List Buffer → Type 0
    Joins n set ds fs =
        let (out, s) = run n (loaded set asked threshold ds fs) in
        (out ≡ joined fuse_heads ds fs) × Drained s

    idle_det : (n : ℕ) (set : Bool) (fs : List Buffer) → Joins n set [] fs
    unfolding run aggregate
    idle_det zero set fs = (refl, inl refl)
    idle_det (suc n) set fs = idle_det n set fs

    idle_flow : (n : ℕ) (set : Bool) (ds : List Buffer) → Joins n set ds []
    unfolding run aggregate
    idle_flow zero set [] = (refl, inl refl)
    idle_flow zero set (d ∷ ds) = (sym (joined-nil fuse_heads ds), inr refl)
    idle_flow (suc n) set [] = idle_det (suc n) set []
    idle_flow (suc n) set (d ∷ ds) = idle_flow n set (d ∷ ds)

    -- Enough calls join the two queues.
    joins :
        (n : ℕ) (set : Bool) (a b : ℕ) (ds fs : List Buffer)
        → (set || caps) ≡ true
        → Ascending a ds
        → Ascending b fs
        → length ds + length fs ≤ n
        → Joins n set ds fs
    unfolding run
    joins n set a b [] fs c x y h = idle_det n set fs
    joins n set a b (d ∷ ds) [] c x y h = idle_flow n set (d ∷ ds)
    joins zero set a b (d ∷ ds) (f ∷ fs) c x y h = absurd (omega arith)
    joins (suc n) set a b (d ∷ ds) (f ∷ fs) c (t, p, l, x) (u, q, m, y) h =
        elim (Bool-cases (ltb t u)) [
          | inl older ↦
              let e : t < u = ltb→lt t u older in
              let (out, end) = joins n set (suc t) b ds (f ∷ fs) c x (u, q, m, y) (omega arith) in
              rw (aggregate_older set d f ds fs t u p q e)
                (out ∙ sym (joined_older fuse_heads d f ds fs t u p q e y), end)
          | inr late ↦ elim (Bool-cases (ltb u t)) [
            | inl newer ↦
                let e : u < t = ltb→lt u t newer in
                let (out, end) = joins n set a (suc u) (d ∷ ds) fs c (t, p, l, x) y (omega arith) in
                rw (aggregate_newer set d f ds fs t u p q e)
                  (out ∙ sym (joined_newer fuse_heads d f ds fs t u p q e x), end)
            | inr not_newer ↦
                let e : t ≡ u = ground arith in
                let (out, end) = joins n true (suc t) (suc u) ds fs refl x y (omega arith) in
                rw (aggregate_same set d f ds fs t p (q ∙ ap some (sym e)) c) (
                  ap (◌∷◌ (fuse_heads d f)) out
                      ∙ sym (joined_same fuse_heads d f ds fs t u p q e x),
                  end,
                )
          ]
        ]

  -- On two branches whose time stamps are valid and ascend, where the caps are set or known, as many
  -- calls as there are buffers push just the buffers of the detector's branch that have a partner with
  -- the same time stamp in the other, each fused with it and in order, whichever buffers are lost on
  -- either branch; and one of the two pads has no buffer left.
  pub run-joined :
      (s : Fusion) (n a b : ℕ)
      → s.det_pad.eos ≡ false
      → s.flow_pad.eos ≡ false
      → (s.src_caps_set || caps) ≡ true
      → Ascending a s.det_pad.queue
      → Ascending b s.flow_pad.queue
      → length s.det_pad.queue + length s.flow_pad.queue ≤ n
      → let (out, s') = run n s in
        (out
          ≡ joined
              (fuse F D M s.compute_motion s.motion_threshold)
              s.det_pad.queue
              s.flow_pad.queue)
        × Drained s'
  run-joined s n a b e f c x y h =
      let same : loaded s.src_caps_set s.compute_motion s.motion_threshold s.det_pad.queue
            s.flow_pad.queue
          ≡ s =
        ground arith in
      subst
        (λ v.
          let (out, s') = run n v in
          (out
            ≡ joined (fuse F D M s.compute_motion s.motion_threshold) s.det_pad.queue
                s.flow_pad.queue)
          × Drained s')
        same
        (joins s.compute_motion s.motion_threshold n s.src_caps_set a b s.det_pad.queue
          s.flow_pad.queue c x y h)
