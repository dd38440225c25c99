-- ===== src/Gate.antt =====
-- gst/nvmmdetgate/detgate.hpp: the class DetGate.
pub mod Blob
pub mod Recent
pub mod Answers
pub mod Roots
pub mod Element
pub mod Emitted
use gst_nvmm_cpp.Common.{
  ℕ, zero, suc, ◌+◌, List, [], ◌∷◌, ◌++◌, Option, none, some, Bool, true, false, ◌&&◌, ◌||◌, not,
  get_or, length, leb, ltb, ◌==◌, if◌then◌else◌, map,
}
use gst_nvmm_cpp.Common.Int.{ℤ, pos, negsuc, eq_ℤ, is_negative}
use gst_nvmm_cpp.Common.Float.{F32, FloatOps, fmax}
use gst_nvmm_cpp.Gate.Blob.{GateDet, MotionSample, GateCfg, motion_sentinel, motion_blob}

-- Trk
pub record Trk : Type 0 where
  pub cx : F32
  pub cy : F32
  pub w : F32
  pub h : F32
  pub maxc : F32
  pub age : ℕ
  pub lost : ℕ
  pub sup : ℕ
  pub matched : Bool
  pub src_index : ℤ

pub record DetGate : Type 0 where
  pub cfg : GateCfg
  pub tracks : List Trk
  pub locked : Bool
  pub lock_lost : ℕ
  pub fcount : ℕ
  pub lock_cx : F32
  pub lock_cy : F32
  pub last_ndets : ℕ
  pub fw : ℕ
  pub fh : ℕ
  pub synth_valid : Bool
  pub synth_cx : F32
  pub synth_cy : F32
  pub synth_w : F32
  pub synth_h : F32

-- DetGate::DetGate
abbrev pub new_gate : GateCfg → DetGate
new_gate c = record {
  cfg = c;
  tracks = [];
  locked = false;
  lock_lost = 0;
  fcount = 0;
  lock_cx = 0;
  lock_cy = 0;
  last_ndets = 0;
  fw = 0;
  fh = 0;
  synth_valid = false;
  synth_cx = 0;
  synth_cy = 0;
  synth_w = 0;
  synth_h = 0;
}

unfoldable pub reset : DetGate → DetGate
reset g = record g { locked = false; tracks = []; lock_lost = 0 }

-- -1, and kSynthConfirm
abbrev pub nothing : ℤ
nothing = negsuc 0

abbrev pub synth_confirm : ℤ
synth_confirm = negsuc 1

abbrev pub no_det : GateDet
no_det = record { cx = 0; cy = 0; w = 0; h = 0; conf = 0; src_index = nothing }

-- DetGate::synth_seed: what it writes, and true, or false.
unfoldable pub synth_seed : DetGate → Option (F32 × F32 × F32 × F32) × DetGate
synth_seed g =
    if g.synth_valid
    then (some (g.synth_cx, g.synth_cy, g.synth_w, g.synth_h), record g { synth_valid = false })
    else (none, g)

abbrev pub unmatch : Trk → Trk
unmatch t = record t { lost = t.lost + 1; matched = false }

-- DetGate::reap
unfoldable pub reap : ℕ → List Trk → List Trk
reap maxlost [] = []
reap maxlost (t ∷ ts) = let rest = reap maxlost ts in if leb t.lost maxlost then t ∷ rest else rest

-- `order` is the indices of the detections as std::sort leaves them, by falling confidence.
module _ (F : FloatOps) (order : List GateDet → List ℕ) where
  abbrev pub distance : F32 → F32 → F32 → F32 → F32
  distance ax ay bx by' = F.hypot (F.sub ax bx) (F.sub ay by')

  unfoldable pub in_active : DetGate → F32 → F32 → Bool
  in_active g cx cy =
      let mx = F.mul g.cfg.borderfrac (F.of_int g.fw) in
      let my = F.mul g.cfg.borderfrac (F.of_int g.fh) in
      if F.le g.cfg.borderfrac 0 || (g.fw == 0 || g.fh == 0)
      then true
      else (F.le mx cx && F.le cx (F.sub (F.of_int g.fw) mx))
        && (F.le my cy && F.le cy (F.sub (F.of_int g.fh) my))

  -- DetGate::sample: `best` is the largest residual so far.
  unfoldable pub sample : F32 → List MotionSample → F32 → F32 → F32 → F32
  sample rad [] cx cy best = best
  sample rad (s ∷ m) cx cy best =
      let dx = F.sub s.x cx in
      let dy = F.sub s.y cy in
      sample rad m cx cy (
        if F.le (F.add (F.mul dx dx) (F.mul dy dy)) (F.mul rad rad)
        then fmax F best s.resid
        else best)

  -- The nearest unmatched track: this one is `k`.
  unfoldable pub nearest : GateDet → List Trk → ℕ → Option ℕ → F32 → Option ℕ
  nearest d [] k best bd = best
  nearest d (t ∷ ts) k best bd =
      let dd = distance t.cx t.cy d.cx d.cy in
      let closer = not t.matched && F.lt dd bd in
      nearest d ts (k + 1) (if closer then some k else best) (if closer then dd else bd)

  abbrev pub continued : Bool → GateDet → Trk → Trk
  continued moved d t = record {
    cx = d.cx;
    cy = d.cy;
    w = d.w;
    h = d.h;
    maxc = fmax F t.maxc d.conf;
    age = t.age + 1;
    lost = 0;
    sup = if moved then t.sup + 1 else 0;
    matched = true;
    src_index = d.src_index;
  }

  abbrev pub begun : Bool → GateDet → Trk
  begun moved d = record {
    cx = d.cx;
    cy = d.cy;
    w = d.w;
    h = d.h;
    maxc = d.conf;
    age = 1;
    lost = 0;
    sup = if moved then 1 else 0;
    matched = true;
    src_index = d.src_index;
  }

  abbrev pub continue_at : ℕ → Bool → GateDet → List Trk → List Trk
  continue_at k moved d [] = []
  continue_at zero moved d (t ∷ ts) = continued moved d t ∷ ts
  continue_at (suc k) moved d (t ∷ ts) = t ∷ continue_at k moved d ts

  unfoldable pub associate : GateCfg → List MotionSample → GateDet → List Trk → List Trk
  associate cfg motion d ts =
      let moved = F.le cfg.rmin (sample cfg.sample_rad motion d.cx d.cy 0) in
      elim (nearest d ts 0 none cfg.dist) [
        | some k ↦ continue_at k moved d ts
        | none ↦ ts ++ (begun moved d ∷ [])
      ]

  unfoldable pub associate_all :
      GateCfg → List MotionSample → List GateDet → List ℕ → List Trk → List Trk
  associate_all cfg motion aug [] ts = ts
  associate_all cfg motion aug (oi ∷ ois) ts =
      associate_all cfg motion aug ois (associate cfg motion (get_or aug oi no_det) ts)

  abbrev pub eligible : DetGate → Trk → Bool
  eligible g t =
      (t.lost == 0 && leb g.cfg.amin t.age) && (in_active g t.cx t.cy && leb g.cfg.ksup t.sup)

  abbrev pub beats : Trk → Option Trk → Bool
  beats t none = true
  beats t (some b) = ltb b.sup t.sup || (t.sup == b.sup && F.lt b.maxc t.maxc)

  -- The confirmed track with the most support: `best` so far. `none` is the support -1.
  unfoldable pub select : DetGate → List Trk → Option Trk → Option Trk
  select g [] best = best
  select g (t ∷ ts) best = select g ts (if eligible g t && beats t best then some t else best)

  -- The search of a locked gate: the lock itself moves to each nearer detection.
  unfoldable pub nearest_lock : List GateDet → ℤ → F32 → F32 → F32 → ℤ × F32 × F32
  nearest_lock [] best bd lx ly = (best, lx, ly)
  nearest_lock (d ∷ ds) best bd lx ly =
      let dd = distance lx ly d.cx d.cy in
      let closer = F.lt dd bd in
      nearest_lock ds (if closer then d.src_index else best) (if closer then dd else bd)
        (if closer then d.cx else lx) (if closer then d.cy else ly)

  -- The end of `update_locked`: a detection was near the lock, or none was.
  unfoldable pub follow : ℤ × F32 × F32 → DetGate → ℤ × DetGate
  follow (pos i, x, y) g = (pos i, record g { lock_cx = x; lock_cy = y; lock_lost = 0 })
  follow (negsuc i, x, y) g =
      let missed : DetGate = record g { lock_cx = x; lock_cy = y; lock_lost = g.lock_lost + 1 } in
      (
        nothing,
        if ltb g.cfg.maxlost missed.lock_lost
            then record missed { locked = false; tracks = [] }
            else missed,
      )

  unfoldable pub update_locked : List GateDet → DetGate → ℤ × DetGate
  update_locked dets g =
      if in_active g g.lock_cx g.lock_cy
      then follow (nearest_lock dets nothing g.cfg.dist g.lock_cx g.lock_cy) g
      else (nothing, record g { locked = false; tracks = [] })

  -- The detections, and the motion blob where it is looked for and found.
  unfoldable pub augmented : DetGate → List MotionSample → List GateDet → List GateDet
  augmented g motion dets =
      if g.cfg.seed_on_motion && leb g.cfg.motion_silent g.fcount
      then elim (motion_blob F g.cfg motion) [ none ↦ dets | some mb ↦ dets ++ (mb ∷ []) ]
      else dets

  -- The end of `update`, by the track that was selected.
  unfoldable pub confirm : Option Trk → DetGate → ℤ × DetGate
  confirm none g = (nothing, g)
  confirm (some t) g =
      let at : DetGate = record g { lock_cx = t.cx; lock_cy = t.cy } in
      let held : DetGate = record at { locked = true; lock_lost = 0 } in
      if eq_ℤ t.src_index motion_sentinel
      then (
        synth_confirm,
        record held {
          synth_valid = true;
          synth_cx = t.cx;
          synth_cy = t.cy;
          synth_w = t.w;
          synth_h = t.h;
        },
      )
      else (t.src_index, if is_negative t.src_index then at else held)

  -- The start of a frame.
  unfoldable pub begin_frame : ℕ → ℕ → DetGate → DetGate
  begin_frame frame_w frame_h g = record g {
    fcount = g.fcount + 1;
    fw = frame_w;
    fh = frame_h;
    tracks = map unmatch g.tracks;
  }

  -- The tracks after a frame of a gate that is not locked.
  unfoldable pub tracked : DetGate → List MotionSample → List GateDet → List Trk
  tracked g motion aug = reap g.cfg.maxlost (associate_all g.cfg motion aug (order aug) g.tracks)

  unfoldable pub update_open : List MotionSample → List GateDet → DetGate → ℤ × DetGate
  update_open motion aug g =
      let ts = tracked g motion aug in
      confirm (select g ts none) (record g { tracks = ts; last_ndets = length aug })

  -- DetGate::update
  unfoldable pub update : List MotionSample → List GateDet → ℕ → ℕ → DetGate → ℤ × DetGate
  update motion dets frame_w frame_h g =
      let g' = begin_frame frame_w frame_h g in
      if g'.locked then update_locked dets g' else update_open motion (augmented g' motion dets) g'
