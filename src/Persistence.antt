-- ===== src/Persistence.antt =====
-- analytics/persistence_gate.hpp: a detection is confirmed when it persists. The parameters are not
-- negative, and no counter reaches 2^31.
pub mod Young
pub mod Lock
use gst_nvmm_cpp.Common.{
  ℕ, zero, suc, ◌+◌, List, [], ◌∷◌, ◌++◌, Option, none, some, Bool, true, false, ◌&&◌, set, get_or,
  leb, ltb, ◌==◌, if◌then◌else◌, map,
}
use gst_nvmm_cpp.Common.Float.{F32, FloatOps}

pub record Detection : Type 0 where
  pub cx : F32
  pub cy : F32
  pub conf : F32
  pub supported : Bool

pub record PersistenceParams : Type 0 where
  pub assoc_dist : F32
  pub min_age : ℕ
  pub min_support : ℕ
  pub max_lost : ℕ

pub record PersistentTrack : Type 0 where
  pub cx : F32
  pub cy : F32
  pub age : ℕ
  pub lost : ℕ
  pub sup : ℕ
  pub matched : Bool
  pub src : ℕ

pub record PersistenceGate : Type 0 where
  pub params : PersistenceParams
  pub tracks : List PersistentTrack
  pub locked : Bool
  pub lock_lost : ℕ
  pub lx : F32
  pub ly : F32

abbrev pub no_detection : Detection
no_detection = record { cx = 0; cy = 0; conf = 0; supported = false }

unfoldable pub reset_gate : PersistenceGate → PersistenceGate
reset_gate g = record g { tracks = []; locked = false; lock_lost = 0 }

-- The start of a frame: every track is lost until it is matched.
abbrev pub unmatch : PersistentTrack → PersistentTrack
unmatch t = record t { lost = t.lost + 1; matched = false }

abbrev pub continued : ℕ → Detection → PersistentTrack → PersistentTrack
continued oi d t = record {
  cx = d.cx;
  cy = d.cy;
  age = t.age + 1;
  lost = 0;
  sup = if d.supported then t.sup + 1 else 0;
  matched = true;
  src = oi;
}

abbrev pub begun : ℕ → Detection → PersistentTrack
begun oi d = record {
  cx = d.cx;
  cy = d.cy;
  age = 1;
  lost = 0;
  sup = if d.supported then 1 else 0;
  matched = true;
  src = oi;
}

-- The track at `k` takes the detection; there is one, as the search found it.
abbrev pub continue_at : ℕ → ℕ → Detection → List PersistentTrack → List PersistentTrack
continue_at k oi d [] = []
continue_at zero oi d (t ∷ ts) = continued oi d t ∷ ts
continue_at (suc k) oi d (t ∷ ts) = t ∷ continue_at k oi d ts

abbrev pub keep : ℕ → List PersistentTrack → List PersistentTrack
keep max_lost [] = []
keep max_lost (t ∷ ts) =
    let rest = keep max_lost ts in if leb t.lost max_lost then t ∷ rest else rest

abbrev pub is_confirmed : PersistenceParams → PersistentTrack → Bool
is_confirmed p t = t.lost == 0 && (leb p.min_age t.age && leb p.min_support t.sup)

abbrev pub first_confirmed : PersistenceParams → List PersistentTrack → Option PersistentTrack
first_confirmed p [] = none
first_confirmed p (t ∷ ts) = if is_confirmed p t then some t else first_confirmed p ts

-- `order` is the indices of the detections as std::sort leaves them, by falling confidence.
module _ (F : FloatOps) (order : List Detection → List ℕ) where
  abbrev pub distance : F32 → F32 → F32 → F32 → F32
  distance ax ay bx by' = F.hypot (F.sub ax bx) (F.sub ay by')

  -- The nearest unmatched track: this one is `k`, and `best` at the distance `bd` the nearest so far.
  unfoldable pub nearest : Detection → List PersistentTrack → ℕ → Option ℕ → F32 → Option ℕ
  nearest d [] k best bd = best
  nearest d (t ∷ ts) k best bd =
      let dd = distance t.cx t.cy d.cx d.cy in
      let closer = (if t.matched then false else F.lt dd bd) in
      nearest d ts (k + 1) (if closer then some k else best) (if closer then dd else bd)

  unfoldable pub associate : F32 → Detection → ℕ → List PersistentTrack → List PersistentTrack
  associate dist d oi ts = elim (nearest d ts 0 none dist) [
    | some k ↦ continue_at k oi d ts
    | none ↦ ts ++ (begun oi d ∷ [])
  ]

  unfoldable pub associate_all :
      F32 → List Detection → List ℕ → List PersistentTrack → List PersistentTrack
  associate_all dist dets [] ts = ts
  associate_all dist dets (oi ∷ ois) ts =
      associate_all dist dets ois (associate dist (get_or dets oi no_detection) oi ts)

  -- The search of a locked gate: the lock itself moves to each nearer detection.
  unfoldable pub nearest_lock :
      List Detection → ℕ → Option ℕ → F32 → F32 → F32 → Option ℕ × F32 × F32
  nearest_lock [] i best bd lx ly = (best, lx, ly)
  nearest_lock (d ∷ ds) i best bd lx ly =
      let dd = distance lx ly d.cx d.cy in
      let closer = F.lt dd bd in
      nearest_lock ds (i + 1) (if closer then some i else best) (if closer then dd else bd)
        (if closer then d.cx else lx) (if closer then d.cy else ly)

  unfoldable pub update_locked : List Detection → PersistenceGate → Option ℕ × PersistenceGate
  update_locked dets g =
      let (best, x, y) = nearest_lock dets 0 none g.params.assoc_dist g.lx g.ly in
      elim best [
        | some i ↦ (some i, record g { lock_lost = 0; lx = x; ly = y })
        | none ↦
            if ltb g.params.max_lost (g.lock_lost + 1)
            then (
              none,
              record g { lock_lost = g.lock_lost + 1; locked = false; tracks = []; lx = x; ly = y },
            )
            else (none, record g { lock_lost = g.lock_lost + 1; lx = x; ly = y })
      ]

  -- The tracks after a frame of a gate that is not locked.
  unfoldable pub tracked : List Detection → PersistenceGate → List PersistentTrack
  tracked dets g =
      keep g.params.max_lost
        (associate_all g.params.assoc_dist dets (order dets) (map unmatch g.tracks))

  -- PersistenceGate::update; `none` is -1.
  unfoldable pub update_gate : List Detection → PersistenceGate → Option ℕ × PersistenceGate
  update_gate dets g =
      let ts = tracked dets g in
      if g.locked then update_locked dets g else elim (first_confirmed g.params ts) [
        | none ↦ (none, record g { tracks = ts })
        | some t ↦ (
          some t.src,
          record g { tracks = ts; locked = true; lock_lost = 0; lx = t.cx; ly = t.cy },
        )
      ]

  -- The gate after a sequence of frames.
  unfoldable pub run_gate : List (List Detection) → PersistenceGate → PersistenceGate
  run_gate [] g = g
  run_gate (dets ∷ frames) g = run_gate frames (update_gate dets g).1
