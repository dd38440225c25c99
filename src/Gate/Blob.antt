-- ===== src/Gate/Blob.antt =====
-- gst/nvmmdetgate/detgate.hpp: the data of the gate, and the blob of independent motion (motion_blob).
-- Counts and sizes are not negative, and no counter reaches 2^31.
use gst_nvmm_cpp.Common.{
  ℕ, zero, suc, ◌+◌, ◌*◌, ◌^◌, ◌%◌, List, [], ◌∷◌, Option, none, some, Bool, true, false, ◌&&◌, set,
  get_or, length, replicate, ltb, ◌==◌, if◌then◌else◌,
}
use gst_nvmm_cpp.Common.Int.{ℤ, negsuc}
use gst_nvmm_cpp.Common.Float.{F32, FloatOps, fmax, fmin}

pub record GateDet : Type 0 where
  pub cx : F32
  pub cy : F32
  pub w : F32
  pub h : F32
  pub conf : F32
  pub src_index : ℤ

pub record MotionSample : Type 0 where
  pub x : F32
  pub y : F32
  pub resid : F32

pub record GateCfg : Type 0 where
  pub rmin : F32
  pub dist : F32
  pub amin : ℕ
  pub ksup : ℕ
  pub maxlost : ℕ
  pub borderfrac : F32
  pub sample_rad : F32
  pub seed_on_motion : Bool
  pub motion_silent : ℕ
  pub motion_rmin : F32
  pub motion_minpts : ℕ
  pub motion_cell : F32
  pub confsky : F32

-- kMotionSentinel is -100
abbrev pub motion_sentinel : ℤ
motion_sentinel = negsuc 99

-- 2.f, 1e30f and -1e30f
abbrev pub two : F32
two = 0x40000000

abbrev far : F32
far = 0x7149F2CA

abbrev minus_far : F32
minus_far = 0xF149F2CA

-- std::fabs clears the sign bit.
abbrev fabs : F32 → F32
fabs a = a % 2 ^ 31

-- `find`: the parent that is followed is replaced by its own parent. The fuel is the number of rounds.
unfoldable pub find : ℕ → List ℕ → ℕ → ℕ × List ℕ
find zero parent i = (i, parent)
find (suc k) parent i = elim (get_or parent i i == i) [
  | true ↦ (i, parent)
  | false ↦
      let up = get_or parent (get_or parent i i) (get_or parent i i) in find k (set parent i up) up
]

-- The points of each root: `cnt[find(i)]++` for the `k` points from `i` on.
unfoldable pub count : ℕ → ℕ → ℕ → List ℕ → List ℕ → List ℕ × List ℕ
count fuel zero i parent cnt = (cnt, parent)
count fuel (suc k) i parent cnt =
    let (r, parent') = find fuel parent i in
    count fuel k (i + 1) parent' (set cnt r (get_or cnt r 0 + 1))

-- The first root with the most points, and their number; `none` is -1.
unfoldable pub largest : List ℕ → ℕ → Option ℕ → ℕ → Option ℕ × ℕ
largest [] i root best = (root, best)
largest (c ∷ cs) i root best = elim (ltb best c) [
  | true ↦ largest cs (i + 1) (some i) c
  | false ↦ largest cs (i + 1) root best
]

abbrev pub indices : ℕ → ℕ → List ℕ
indices zero i = []
indices (suc k) i = i ∷ indices k (i + 1)

pub record Extent : Type 0 where
  pub x0 : F32
  pub y0 : F32
  pub x1 : F32
  pub y1 : F32

module _ (F : FloatOps) where
  -- `ix`, as the points themselves
  unfoldable pub strong : F32 → List MotionSample → List MotionSample
  strong rmin [] = []
  strong rmin (s ∷ m) = let rest = strong rmin m in if F.le rmin s.resid then s ∷ rest else rest

  abbrev pub near : F32 → MotionSample → MotionSample → Bool
  near cell a b = F.le (fabs (F.sub a.x b.x)) cell && F.le (fabs (F.sub a.y b.y)) cell

  -- The body of the pair loop.
  unfoldable pub unite : ℕ → Bool → ℕ → ℕ → List ℕ → List ℕ
  unite fuel false i j parent = parent
  unite fuel true i j parent =
      let (a, parent') = find fuel parent i in
      let (b, parent'') = find fuel parent' j in if a == b then parent'' else set parent'' a b

  -- The inner loop: `rest` are the points from `j` on.
  unfoldable pub unite_with : ℕ → F32 → MotionSample → ℕ → List MotionSample → ℕ → List ℕ → List ℕ
  unite_with fuel cell s i [] j parent = parent
  unite_with fuel cell s i (t ∷ rest) j parent =
      unite_with fuel cell s i rest (j + 1) (unite fuel (near cell s t) i j parent)

  unfoldable pub unite_all : ℕ → F32 → List MotionSample → ℕ → List ℕ → List ℕ
  unite_all fuel cell [] i parent = parent
  unite_all fuel cell (s ∷ rest) i parent =
      unite_all fuel cell rest (i + 1) (unite_with fuel cell s i rest (i + 1) parent)

  abbrev widen : MotionSample → Extent → Extent
  widen s e = record {
    x0 = fmin F e.x0 s.x;
    y0 = fmin F e.y0 s.y;
    x1 = fmax F e.x1 s.x;
    y1 = fmax F e.y1 s.y;
  }

  unfoldable pub extent : ℕ → ℕ → List MotionSample → ℕ → List ℕ → Extent → Extent
  extent fuel root [] i parent e = e
  extent fuel root (s ∷ rest) i parent e =
      let (r, parent') = find fuel parent i in
      extent fuel root rest (i + 1) parent' (if r == root then widen s e else e)

  abbrev pub blob_of : GateCfg → Extent → GateDet
  blob_of cfg e =
      let w = F.sub e.x1 e.x0 in
      let h = F.sub e.y1 e.y0 in
      record {
        cx = F.add e.x0 (F.div w two);
        cy = F.add e.y0 (F.div h two);
        w = w;
        h = h;
        conf = cfg.confsky;
        src_index = motion_sentinel;
      }

  -- The blob of the largest group.
  unfoldable pub blob_at : ℕ → GateCfg → List MotionSample → List ℕ → Option ℕ × ℕ → Option GateDet
  blob_at fuel cfg points parent (none, best) = none
  blob_at fuel cfg points parent (some r, best) =
      if ltb best cfg.motion_minpts
      then none
      else some (
          blob_of cfg (
            extent fuel r points 0 parent
              (record { x0 = far; y0 = far; x1 = minus_far; y1 = minus_far })))

  -- DetGate::motion_blob; `none` is false.
  unfoldable pub motion_blob : GateCfg → List MotionSample → Option GateDet
  motion_blob cfg m =
      let points = strong cfg.motion_rmin m in
      let n = length points in
      let fuel = n * n in
      let parent = unite_all fuel cfg.motion_cell points 0 (indices n 0) in
      let (cnt, parent') = count fuel n 0 parent (replicate n 0) in
      if ltb n cfg.motion_minpts
      then none
      else blob_at fuel cfg points parent' (largest cnt 0 none 0)
