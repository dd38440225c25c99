-- ===== src/Gate/Answers.antt =====
-- gst/nvmmdetgate/detgate.hpp: what update answers.
use gst_nvmm_cpp.Common.{
  ℕ, ◌+◌, ◌≤◌, ◌≡◌, refl, ap, ◌∙◌, List, [], ◌∷◌, ◌++◌, Option, none, some, Bool, true, false, ◌&&◌,
  All, length, leb, ltb, if◌then◌else◌, Bool-cases, arith, inl, inr, ◌⊎◌,
}
use gst_nvmm_cpp.Common.Int.{ℤ, pos, negsuc, eq_ℤ, is_negative}
use gst_nvmm_cpp.Common.Float.{F32, FloatOps}
use gst_nvmm_cpp.Gate.{
  Trk, DetGate, nothing, synth_confirm, select, nearest_lock, follow, update_locked, augmented,
  confirm, begin_frame, tracked, update_open, update, in_active,
}
use gst_nvmm_cpp.Gate.Blob.{
  GateDet, MotionSample, GateCfg, motion_sentinel, motion_blob, blob_at, strong,
}
use gst_nvmm_cpp.Gate.Recent.{
  InSrc, InSrc-append, Indexes, Recent, Picked, unmatch-Recent, reap-Recent, associate_all-Recent,
  select-Picked,
}

-- The result of update, and the gate after it, for a gate that has seen `n` frames with this one.
pub data Answer (cfg : GateCfg) (n : ℕ) (dets : List GateDet) : ℤ → DetGate → Type 0 where
  no_target : (g : DetGate) → Answer cfg n dets nothing g
  target : (j : ℤ) (g : DetGate) → InSrc j dets → g.locked ≡ true → Answer cfg n dets j g
  blob :
      (g : DetGate)
      → cfg.seed_on_motion ≡ true
      → cfg.motion_silent ≤ n
      → g.locked ≡ true
      → g.synth_valid ≡ true
      → Answer cfg n dets synth_confirm g

module _ (F : FloatOps) where
  abbrev Sentinel : Option GateDet → Type 0
  Sentinel none = Unit
  Sentinel (some mb) = mb.src_index ≡ motion_sentinel

  blob_at-Sentinel :
      (fuel : ℕ) (cfg : GateCfg) (points : List MotionSample) (parent : List ℕ) (o : Option ℕ × ℕ)
      → Sentinel (blob_at F fuel cfg points parent o)
  unfolding blob_at
  blob_at-Sentinel fuel cfg points parent (none, best) = tt
  blob_at-Sentinel fuel cfg points parent (some r, best) =
      elim (Bool-cases (ltb best cfg.motion_minpts)) [ inl e ↦ rw e tt | inr e ↦ rw e refl ]

  motion_blob-Sentinel : (cfg : GateCfg) (m : List MotionSample) → Sentinel (motion_blob F cfg m)
  unfolding motion_blob
  motion_blob-Sentinel cfg m =
      elim (Bool-cases (ltb (length (strong F cfg.motion_rmin m)) cfg.motion_minpts)) [
        | inl e ↦ rw e tt
        | inr e ↦ rw e (blob_at-Sentinel _ cfg _ _ _)
      ]

module _ (F : FloatOps) (order : List GateDet → List ℕ) where
  -- Where the index of a detection of the frame comes from.
  augmented-InSrc :
      (g : DetGate) (motion : List MotionSample) (dets : List GateDet) (j : ℤ)
      → InSrc j (augmented F order g motion dets)
      → InSrc j dets
        ⊎ ((j ≡ motion_sentinel) × (g.cfg.seed_on_motion ≡ true) × (g.cfg.motion_silent ≤ g.fcount))
  unfolding augmented
  augmented-InSrc g motion dets j s =
      by (g.cfg.seed_on_motion && leb g.cfg.motion_silent g.fcount) refl
        (motion_blob F g.cfg motion) (motion_blob-Sentinel F g.cfg motion) s
    where
      by :
          (b : Bool)
          → (g.cfg.seed_on_motion && leb g.cfg.motion_silent g.fcount) ≡ b
          → (o : Option GateDet) → Sentinel F o
          → InSrc j (if b then elim o [ none ↦ dets | some mb ↦ dets ++ (mb ∷ []) ] else dets)
          → InSrc j dets
            ⊎ ((j ≡ motion_sentinel)
                × (g.cfg.seed_on_motion ≡ true)
                × (g.cfg.motion_silent ≤ g.fcount))
      by false e o q t = inl t
      by true e none q t = inl t
      by true e (some mb) q t = elim (InSrc-append j dets mb t) [
        | inl u ↦ inl u
        | inr u ↦ inr (u ∙ q, ground (arith, e), ground (arith, e))
      ]

  nearest_lock-InSrc :
      (ds all : List GateDet) (best : ℤ) (bd lx ly : F32)
      → (best ≡ nothing) ⊎ InSrc best all
      → ((j : ℤ) → InSrc j ds → InSrc j all)
      → ((nearest_lock F order ds best bd lx ly).0 ≡ nothing)
        ⊎ InSrc (nearest_lock F order ds best bd lx ly).0 all
  unfolding nearest_lock
  nearest_lock-InSrc [] all best bd lx ly b sub = b
  nearest_lock-InSrc (d ∷ ds) all best bd lx ly b sub =
      nearest_lock-InSrc ds all _ _ _ _ (by (F.lt _ bd)) (λ j s. sub j (inr s))
    where
      by :
          (closer : Bool)
          → ((if closer then d.src_index else best) ≡ nothing)
            ⊎ InSrc (if closer then d.src_index else best) all
      by true = inr (sub d.src_index (inl refl))
      by false = b

  follow_answer :
      (cfg : GateCfg) (n : ℕ) (dets : List GateDet) (o : ℤ × F32 × F32) (g : DetGate)
      → (o.0 ≡ nothing) ⊎ InSrc o.0 dets
      → g.locked ≡ true
      → Answer cfg n dets (follow F order o g).0 (follow F order o g).1
  unfolding follow
  follow_answer cfg n dets (pos i, x, y) g (inl e) l = absurd cc
  follow_answer cfg n dets (pos i, x, y) g (inr s) l = target (pos i) _ s l
  follow_answer cfg n dets (negsuc i, x, y) g s l = no_target _

  locked_answer :
      (cfg : GateCfg) (n : ℕ) (dets : List GateDet) (g : DetGate)
      → g.locked ≡ true
      → Answer cfg n dets (update_locked F order dets g).0 (update_locked F order dets g).1
  unfolding update_locked
  locked_answer cfg n dets g l = elim (Bool-cases (in_active F order g g.lock_cx g.lock_cy)) [
    | inl e ↦ rw e (
        follow_answer cfg n dets (nearest_lock F order dets nothing g.cfg.dist g.lock_cx g.lock_cy)
          g
          (nearest_lock-InSrc dets dets nothing g.cfg.dist g.lock_cx g.lock_cy (inl refl)
            (λ j s. s))
          l)
    | inr e ↦ rw e (no_target _)
  ]

  -- Where an index of the frame comes from.
  abbrev Source : GateCfg → ℕ → List GateDet → ℤ → Type 0
  Source cfg n dets j =
      InSrc j dets ⊎ ((j ≡ motion_sentinel) × (cfg.seed_on_motion ≡ true) × (cfg.motion_silent ≤ n))

  not_negative :
      (j : ℤ) (dets : List GateDet)
      → All (λ d. is_negative d.src_index ≡ false) dets
      → InSrc j dets
      → is_negative j ≡ false
  not_negative j [] a s = absurd s
  not_negative j (d ∷ ds) a (inl e) = ap is_negative e ∙ a.0
  not_negative j (d ∷ ds) a (inr s) = not_negative j ds a.1 s

  seeded :
      (cfg : GateCfg) (n : ℕ) (dets : List GateDet) (j : ℤ)
      → eq_ℤ j motion_sentinel ≡ true
      → All (λ d. is_negative d.src_index ≡ false) dets
      → Source cfg n dets j
      → (cfg.seed_on_motion ≡ true) × (cfg.motion_silent ≤ n)
  seeded cfg n dets (pos i) e neg s = absurd cc
  seeded cfg n dets (negsuc i) e neg (inl s) = absurd (cc (not_negative (negsuc i) dets neg s))
  seeded cfg n dets (negsuc i) e neg (inr (q, r, h)) = (r, h)

  chosen :
      (cfg : GateCfg) (n : ℕ) (dets : List GateDet) (j : ℤ) (at held : DetGate)
      → held.locked ≡ true
      → eq_ℤ j motion_sentinel ≡ false
      → All (λ d. is_negative d.src_index ≡ false) dets
      → Source cfg n dets j
      → Answer cfg n dets j (if is_negative j then at else held)
  chosen cfg n dets j at held l e neg (inl s) = rw (not_negative j dets neg s) (target j held s l)
  chosen cfg n dets j at held l e neg (inr s) = absurd (cc (s.0, e))

  confirm_answer :
      (cfg : GateCfg) (n : ℕ) (dets aug : List GateDet) (o : Option Trk) (g : DetGate)
      → All (λ d. is_negative d.src_index ≡ false) dets
      → ((j : ℤ) → InSrc j aug → Source cfg n dets j)
      → Picked aug F order o
      → Answer cfg n dets (confirm F order o g).0 (confirm F order o g).1
  unfolding confirm
  confirm_answer cfg n dets aug none g neg src p = no_target g
  confirm_answer cfg n dets aug (some t) g neg src p =
      elim (Bool-cases (eq_ℤ t.src_index motion_sentinel)) [
        | inl e ↦
            let q = seeded cfg n dets t.src_index e neg (src t.src_index p) in
            rw e (blob _ q.0 q.1 refl refl)
        | inr e ↦ rw e (chosen cfg n dets t.src_index _ _ refl e neg (src t.src_index p))
      ]

  -- A frame, once it has begun.
  frame_answer :
      (motion : List MotionSample) (dets : List GateDet) (g : DetGate)
      → All (λ d. is_negative d.src_index ≡ false) dets
      → Indexes order
      → ((aug : List GateDet) → All (Recent aug) g.tracks)
      → (b : Bool) → g.locked ≡ b
      → let (j, g') =
          if b
          then update_locked F order dets g
          else update_open F order motion (augmented F order g motion dets) g in
        Answer g.cfg g.fcount dets j g'
  unfolding update_open tracked
  frame_answer motion dets g neg perm fresh true l = locked_answer g.cfg g.fcount dets g l
  frame_answer motion dets g neg perm fresh false l =
      let aug = augmented F order g motion dets in
      confirm_answer g.cfg g.fcount dets aug (select F order g (tracked F order g motion aug) none)
        _ neg (augmented-InSrc g motion dets)
        (select-Picked aug F order g (tracked F order g motion aug) none
          (reap-Recent aug g.cfg.maxlost _ (
            associate_all-Recent aug F order g.cfg motion (order aug) g.tracks (perm aug)
              (fresh aug)))
          tt)

  -- What update answers, for a gate however it came to its state: no target; or the index of a detection
  -- of this very frame, and the gate is locked; or a motion blob, only where seeding on motion is on and
  -- motion_silent frames were seen, and the gate is locked and has a seed to hand out. The detections'
  -- indices are not negative, and std::sort leaves indices of the list.
  pub update_answer :
      (motion : List MotionSample) (dets : List GateDet) (frame_w frame_h : ℕ) (g : DetGate)
      → All (λ d. is_negative d.src_index ≡ false) dets
      → Indexes order
      → let (j, g') = update F order motion dets frame_w frame_h g in
        Answer g.cfg (g.fcount + 1) dets j g'
  unfolding update begin_frame
  update_answer motion dets frame_w frame_h g neg perm =
      frame_answer motion dets (begin_frame F order frame_w frame_h g) neg perm
        (λ aug. unmatch-Recent aug g.tracks) g.locked refl
