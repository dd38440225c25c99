-- ===== src/Gate/Emitted.antt =====
-- gst/nvmmdetgate/gstnvmmdetgate.cpp: the detections that leave the element.
use gst_nvmm_cpp.Common.{
  ℕ, zero, suc, ◌+◌, ◌*◌, ◌^◌, ◌%◌, ◌≤◌, ◌<◌, ◌≡◌, refl, ◌∙◌, List, [], ◌∷◌, ◌++◌, Option, none,
  some, Bool, true, false, ◌&&◌, not, All, get_or, get_or-set_self, length, leb, lt→ltb,
  if◌then◌else◌, Bool-cases, arith, inl, inr,
}
use gst_nvmm_cpp.Common.Int.{ℤ, pos, is_negative}
use gst_nvmm_cpp.Common.Float.{F32, FloatOps}
use gst_nvmm_cpp.Ipc.Protocol.{DetObject}
use gst_nvmm_cpp.DetMeta.{BufferMeta}
use gst_nvmm_cpp.Gate.{DetGate, nothing, synth_confirm, synth_seed}
use gst_nvmm_cpp.Gate.Blob.{GateDet, MotionSample}
use gst_nvmm_cpp.Gate.Recent.{InSrc, Indexes}
use gst_nvmm_cpp.Gate.Answers.{Answer, no_target, target, blob, update_answer}
use gst_nvmm_cpp.Gate.Element.{
  DoubleOps, Matcher, GateElement, Incoming, no_object, trim, prepare, accepted, gate_dets, dets_of,
  ask_gate, decide, seed_object, put_seed, put_first, emit, filter_dets, transform_ip,
}

module _ {X : Type 0} (F : FloatOps) (D : DoubleOps) (M : Matcher X)
    (order : List GateDet → List ℕ) where
  -- The detections before and after: none is left, or one of the target class that was there, or one
  -- that motion gives, where the gate seeds on motion.
  pub data Emitted (s : GateElement X) (m : BufferMeta) : BufferMeta → Type 0 where
    hidden : (m' : BufferMeta) → m'.num_objects ≡ 0 → Emitted s m m'
    passed :
        (k : ℕ) (m' : BufferMeta)
        → k < m.num_objects
        → accepted F D M order s (get_or m.objects k no_object) ≡ true
        → m'.num_objects ≡ 1
        → get_or m'.objects 0 no_object ≡ get_or m.objects k no_object
        → Emitted s m m'
    made :
        (g : DetGate) (at : F32 × F32 × F32 × F32) (m' : BufferMeta)
        → s.gate ≡ some g
        → g.cfg.seed_on_motion ≡ true
        → m'.num_objects ≡ 1
        → get_or m'.objects 0 no_object ≡ seed_object F D M order s at
        → Emitted s m m'

  -- What `decide` leaves.
  data Decided (s : GateElement X) (dets : List GateDet) : ℤ → GateElement X → Type 0 where
    idle : (t : GateElement X) → Decided s dets nothing t
    found : (j : ℤ) (t : GateElement X) → InSrc j dets → Decided s dets j t
    seeded :
        (g g' : DetGate)
        → s.gate ≡ some g
        → g.cfg.seed_on_motion ≡ true
        → g'.synth_valid ≡ true
        → Decided s dets synth_confirm (record s { gate = some g' })

  -- The detections' indices are those of the accepted objects.
  gate_dets-InSrc :
      (s : GateElement X) (sx sy : F32) (n i : ℕ) (objects : List DetObject) (j : ℤ)
      → InSrc j (gate_dets F D M order s sx sy n i objects)
      → (k : ℕ) × (j ≡ pos k)
        × (k < i + n)
        × (accepted F D M order s (get_or objects k no_object) ≡ true)
  unfolding gate_dets
  gate_dets-InSrc s sx sy zero i objects j h = absurd h
  gate_dets-InSrc s sx sy (suc n) i objects j h =
      by (accepted F D M order s (get_or objects i no_object)) refl
        (gate_dets F D M order s sx sy n (i + 1) objects)
        (gate_dets-InSrc s sx sy n (i + 1) objects j) _ refl h
    where
      Found : ℕ → ℕ → Type 0
      Found a b =
          (k : ℕ) × (j ≡ pos k)
          × (k < a + b)
          × (accepted F D M order s (get_or objects k no_object) ≡ true)

      wider : Found (i + 1) n → Found i (suc n)
      wider (k, e, lt, a) = (k, e, omega (arith, lt), a)

      by :
          (b : Bool)
          → accepted F D M order s (get_or objects i no_object) ≡ b
          → (rest : List GateDet) → (InSrc j rest → Found (i + 1) n)
          → (d : GateDet) → d.src_index ≡ pos i
          → InSrc j (if b then d ∷ rest else rest)
          → Found i (suc n)
      by false e rest later d f q = wider (later q)
      by true e rest later d f (inl q) = (i, q ∙ f, omega arith, e)
      by true e rest later d f (inr q) = wider (later q)

  gate_dets-nonneg :
      (s : GateElement X) (sx sy : F32) (n i : ℕ) (objects : List DetObject)
      → All (λ d. is_negative d.src_index ≡ false) (gate_dets F D M order s sx sy n i objects)
  unfolding gate_dets
  gate_dets-nonneg s sx sy zero i objects = tt
  gate_dets-nonneg s sx sy (suc n) i objects =
      elim (Bool-cases (accepted F D M order s (get_or objects i no_object))) [
        | inl e ↦ rw e (refl, gate_dets-nonneg s sx sy n (i + 1) objects)
        | inr e ↦ rw e (gate_dets-nonneg s sx sy n (i + 1) objects)
      ]

  answered :
      (s : GateElement X) (g : DetGate) (n : ℕ) (dets : List GateDet) (j : ℤ) (g' : DetGate)
      → s.gate ≡ some g
      → Answer g.cfg n dets j g'
      → Decided s dets j (record s { gate = some g' })
  answered s g n dets j g' e (no_target u) = idle _
  answered s g n dets j g' e (target i u q l) = found i _ q
  answered s g n dets j g' e (blob u c h l v) = seeded g u e c v

  ask_gate-Decided :
      (motion : List MotionSample) (w h : ℕ) (dets : List GateDet) (s : GateElement X)
      (o : Option DetGate)
      → s.gate ≡ o
      → All (λ d. is_negative d.src_index ≡ false) dets
      → Indexes order
      → let (j, t) = ask_gate F D M order motion w h dets o s in Decided s dets j t
  unfolding ask_gate
  ask_gate-Decided motion w h dets s none e neg perm = idle s
  ask_gate-Decided motion w h dets s (some g) e neg perm =
      answered s g (g.fcount + 1) dets _ _ e (update_answer F order motion dets w h g neg perm)

  decide-Decided :
      (w h : ℕ) (dets : List GateDet) (cur : X) (s : GateElement X)
      → All (λ d. is_negative d.src_index ≡ false) dets
      → Indexes order
      → let (j, t) = decide F D M order w h dets cur s in Decided s dets j t
  unfolding decide
  decide-Decided w h dets cur s neg perm =
      elim (Bool-cases
        (leb (2 * s.dlt + 1) (length s.hist) && (s.matcher_ready && not (M.empty cur)))) [
          | inl e ↦ rw e (ask_gate-Decided _ w h dets s s.gate refl neg perm)
          | inr e ↦ rw e (idle s)
        ]

  emit-passed :
      (s t : GateElement X) (m : BufferMeta) (k : ℕ)
      → m.num_objects ≤ length m.objects
      → k < m.num_objects
      → accepted F D M order s (get_or m.objects k no_object) ≡ true
      → Emitted s m (emit F D M order (pos k) m t).0
  unfolding emit
  emit-passed s t m k le lt a =
      rw (lt→ltb k m.num_objects lt)
        (passed k _ lt a refl (get_or-set_self m.objects 0 _ no_object (omega (arith, le, lt))))

  first_put :
      (o : DetObject) (xs : List DetObject) → get_or (put_first F D M order o xs) 0 no_object ≡ o
  first_put o [] = refl
  first_put o (x ∷ xs) = refl

  synth_seed-valid :
      (g : DetGate)
      → g.synth_valid ≡ true
      → (synth_seed g).0 ≡ some (g.synth_cx, g.synth_cy, g.synth_w, g.synth_h)
  unfolding synth_seed
  synth_seed-valid g e = rw e refl

  emit-made :
      (s : GateElement X) (m : BufferMeta) (g g' : DetGate)
      → s.gate ≡ some g
      → g.cfg.seed_on_motion ≡ true
      → g'.synth_valid ≡ true
      → Emitted s m (emit F D M order synth_confirm m (record s { gate = some g' })).0
  unfolding emit
  emit-made s m g g' e c v = by (synth_seed g').0 (synth_seed-valid g' v)
    where
      by :
          (o : Option (F32 × F32 × F32 × F32))
          → o ≡ some (g'.synth_cx, g'.synth_cy, g'.synth_w, g'.synth_h)
          → Emitted s m (put_seed F D M order o m (record s { gate = some (synth_seed g').1 })).0
      by none q = absurd cc
      by (some at) q = made g at _ e c refl (first_put _ m.objects)

  emit-Emitted :
      (s t : GateElement X) (m : BufferMeta) (dets : List GateDet) (j : ℤ)
      → m.num_objects ≤ length m.objects
      → ((i : ℤ)
          → InSrc i dets
          → (k : ℕ) × (i ≡ pos k)
            × (k < m.num_objects)
            × (accepted F D M order s (get_or m.objects k no_object) ≡ true))
      → Decided s dets j t
      → Emitted s m (emit F D M order j m t).0
  unfolding emit
  emit-Emitted s t m dets j le src (idle u) = hidden _ refl
  emit-Emitted s t m dets j le src (found i u q) =
      let (k, e, lt, a) = src i q in rw e (emit-passed s t m k le lt a)
  emit-Emitted s t m dets j le src (seeded g g' e c v) = emit-made s m g g' e c v

  -- The history does not matter for what may leave.
  Emitted-queued :
      (s : GateElement X) (hist : List X) (m m' : BufferMeta)
      → Emitted (record s { hist = hist }) m m'
      → Emitted s m m'
  Emitted-queued s hist m m' (hidden u z) = hidden u z
  Emitted-queued s hist m m' (passed k u lt a z e) = passed k u lt a z e
  Emitted-queued s hist m m' (made g at u e c z o) = made g at u e c z o

  dets_of-src :
      (w h : ℕ) (s : GateElement X) (m : BufferMeta) (i : ℤ)
      → InSrc i (dets_of F D M order s w h (some m))
      → (k : ℕ) × (i ≡ pos k)
        × (k < m.num_objects)
        × (accepted F D M order s (get_or m.objects k no_object) ≡ true)
  unfolding dets_of
  dets_of-src w h s m i q =
      let (k, e, lt, a) = gate_dets-InSrc s _ _ m.num_objects 0 m.objects i q in
      (k, e, omega (arith, lt), a)

  dets_of-nonneg :
      (w h : ℕ) (s : GateElement X) (m : BufferMeta)
      → All (λ d. is_negative d.src_index ≡ false) (dets_of F D M order s w h (some m))
  unfolding dets_of
  dets_of-nonneg w h s m = gate_dets-nonneg s _ _ m.num_objects 0 m.objects

  filter_dets-Emitted :
      (buf : Incoming X) (w h : ℕ) (s : GateElement X) (m : BufferMeta)
      → m.num_objects ≤ length m.objects
      → Indexes order
      → let out = filter_dets F D M order (record buf { det = some m }) w h s in
        (m' : BufferMeta) × (out.0 ≡ some m') × Emitted s m m'
  unfolding filter_dets
  filter_dets-Emitted buf w h s m le perm =
      let hist : List X = trim (2 * s.dlt + 1) (s.hist ++ (buf.features ∷ [])) in
      let queued : GateElement X = record s { hist = hist } in
      let dets = dets_of F D M order s w h (some m) in
      let out = decide F D M order w h dets buf.features queued in
      let answer = decide-Decided w h dets buf.features queued (dets_of-nonneg w h s m) perm in
      (
        (emit F D M order out.0 m out.1).0,
        refl,
        Emitted-queued s hist m _
            (emit-Emitted queued out.1 m dets out.0 le (dets_of-src w h s m) answer),
      )

  -- Where the element is enabled, the buffer has a surface and the matcher is there or starts, the
  -- detections of a buffer become none, or just one: one of the target class that stood on this buffer and
  -- is not below the least confidence, or one that motion gives, and that only if the gate seeds on motion.
  pub transform_ip-Emitted :
      (buf : Incoming X) (s ready : GateElement X) (w h : ℕ) (m : BufferMeta)
      → s.enabled ≡ true
      → buf.surface ≡ some (w, h)
      → prepare F D M order buf.starts (record s { frame_no = (s.frame_no + 1) % 2 ^ 64 })
        ≡ some ready
      → m.num_objects ≤ length m.objects
      → Indexes order
      → let out = transform_ip F D M order (record buf { det = some m }) s in
        (m' : BufferMeta) × (out.0 ≡ some m') × Emitted ready m m'
  unfolding transform_ip
  transform_ip-Emitted buf s ready w h m on surf prep le perm =
      rw (on, surf, prep) (filter_dets-Emitted buf w h ready m le perm)
