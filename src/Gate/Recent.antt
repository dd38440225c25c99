-- ===== src/Gate/Recent.antt =====
-- gst/nvmmdetgate/detgate.hpp: the indices that tracks have.
use gst_nvmm_cpp.Common.{
  ℕ, zero, suc, ◌<◌, ◌≡◌, refl, List, [], ◌∷◌, ◌++◌, Option, none, some, Bool, true, false, ◌&&◌,
  All, All-append, get_or, length, leb, if◌then◌else◌, map, Bool-cases, arith, inl, inr, ◌⊎◌,
}
use gst_nvmm_cpp.Common.Int.{ℤ}
use gst_nvmm_cpp.Common.Float.{FloatOps}
use gst_nvmm_cpp.Gate.{
  Trk, DetGate, no_det, unmatch, reap, begun, continue_at, associate, associate_all, eligible,
  beats, select, nearest, sample,
}
use gst_nvmm_cpp.Gate.Blob.{GateDet, MotionSample, GateCfg}

-- Some detection has this index.
abbrev pub InSrc : ℤ → List GateDet → Type 0
InSrc j [] = ⊥
InSrc j (d ∷ ds) = (j ≡ d.src_index) ⊎ InSrc j ds

pub InSrc-append :
    (j : ℤ) (ds : List GateDet) (b : GateDet)
    → InSrc j (ds ++ (b ∷ []))
    → InSrc j ds ⊎ (j ≡ b.src_index)
InSrc-append j [] b (inl e) = inr e
InSrc-append j [] b (inr e) = absurd e
InSrc-append j (d ∷ ds) b (inl e) = inl (inl e)
InSrc-append j (d ∷ ds) b (inr s) = elim (InSrc-append j ds b s) [
  | inl t ↦ inl (inr t)
  | inr e ↦ inr e
]

get_or-InSrc : (ds : List GateDet) (i : ℕ) → i < length ds → InSrc (get_or ds i no_det).src_index ds
get_or-InSrc [] i h = absurd (omega arith)
get_or-InSrc (d ∷ ds) zero h = inl refl
get_or-InSrc (d ∷ ds) (suc i) h = inr (get_or-InSrc ds i (omega arith))

-- Of std::sort: it permutes the indices.
abbrev pub Indexes : (List GateDet → List ℕ) → Type 0
Indexes order = (ds : List GateDet) → All (λ i. i < length ds) (order ds)

module _ (aug : List GateDet) where
  -- A track that was matched in this frame has the index of one of its detections.
  abbrev pub Recent : Trk → Type 0
  Recent t = t.lost ≡ 0 → InSrc t.src_index aug

  pub unmatch-Recent : (ts : List Trk) → All Recent (map unmatch ts)
  unmatch-Recent [] = tt
  unmatch-Recent (t ∷ ts) = (λ e. absurd (omega (arith, e)), unmatch-Recent ts)

  pub reap-Recent : (m : ℕ) (ts : List Trk) → All Recent ts → All Recent (reap m ts)
  unfolding reap
  reap-Recent m [] a = tt
  reap-Recent m (t ∷ ts) a = elim (Bool-cases (leb t.lost m)) [
    | inl e ↦ rw e (a.0, reap-Recent m ts a.1)
    | inr e ↦ rw e (reap-Recent m ts a.1)
  ]

  module _ (F : FloatOps) (order : List GateDet → List ℕ) where
    continue_at-Recent :
        (k : ℕ) (moved : Bool) (d : GateDet) (ts : List Trk)
        → InSrc d.src_index aug
        → All Recent ts
        → All Recent (continue_at F order k moved d ts)
    continue_at-Recent k moved d [] s a = tt
    continue_at-Recent zero moved d (t ∷ ts) s a = (λ e. s, a.1)
    continue_at-Recent (suc k) moved d (t ∷ ts) s a = (a.0, continue_at-Recent k moved d ts s a.1)

    associate-Recent :
        (cfg : GateCfg) (motion : List MotionSample) (d : GateDet) (ts : List Trk)
        → InSrc d.src_index aug
        → All Recent ts
        → All Recent (associate F order cfg motion d ts)
    unfolding associate
    associate-Recent cfg motion d ts s a =
        by (F.le cfg.rmin (sample F order cfg.sample_rad motion d.cx d.cy 0))
          (nearest F order d ts 0 none cfg.dist)
      where
        by :
            (moved : Bool) (o : Option ℕ)
            → All Recent (elim o [
              | some k ↦ continue_at F order k moved d ts
              | none ↦ ts ++ (begun F order moved d ∷ [])
            ])
        by moved none = All-append Recent ts (begun F order moved d ∷ []) a (λ e. s, tt)
        by moved (some k) = continue_at-Recent k moved d ts s a

    pub associate_all-Recent :
        (cfg : GateCfg) (motion : List MotionSample) (ois : List ℕ) (ts : List Trk)
        → All (λ i. i < length aug) ois
        → All Recent ts
        → All Recent (associate_all F order cfg motion aug ois ts)
    unfolding associate_all
    associate_all-Recent cfg motion [] ts b a = a
    associate_all-Recent cfg motion (oi ∷ ois) ts b a =
        associate_all-Recent cfg motion ois _ b.1
          (associate-Recent cfg motion (get_or aug oi no_det) ts (get_or-InSrc aug oi b.0) a)

    abbrev pub Picked : Option Trk → Type 0
    Picked none = Unit
    Picked (some t) = InSrc t.src_index aug

    pub select-Picked :
        (g : DetGate) (ts : List Trk) (best : Option Trk)
        → All Recent ts
        → Picked best
        → Picked (select F order g ts best)
    unfolding select
    select-Picked g [] best a p = p
    select-Picked g (t ∷ ts) best a p =
        select-Picked g ts _ a.1 (by (eligible F order g t && beats F order t best) refl)
      where
        by :
            (b : Bool)
            → (eligible F order g t && beats F order t best) ≡ b
            → Picked (if b then some t else best)
        by false e = p
        by true e = a.0 (ground (arith, e))
