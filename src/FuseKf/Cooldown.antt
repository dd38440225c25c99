-- ===== src/FuseKf/Cooldown.antt =====
-- When a new seed is asked for (gst/nvmmfusekf/gstnvmmfusekf.cpp).
use gst_nvmm_cpp.Common.{
  ℕ, ◌+◌, ◌<◌, ◌≤◌, ◌≡◌, refl, ap, sym, ◌∙◌, List, [], ◌∷◌, Option, none, some, false, ◌&&◌, leb,
  if◌then◌else◌, arith, inl, inr, Option-cases, ◌⊎◌,
}
use gst_nvmm_cpp.Kalman.{Doubles, KalmanBox, Box}
use gst_nvmm_cpp.FuseKf.{
  TrackMeta, FuseKf, Frame, Reseed, has_sam, publish, observe, reseed, fuse, best_det, time_step,
  stamped, transform_ip,
}
use gst_nvmm_cpp.FuseKf.Silence.{step, transform_ip-fuse, step-some, valid-publish, valid-flush}

-- Buffers with a track meta.
abbrev pub tracked : List Frame → ℕ
tracked [] = 0
tracked (f ∷ fs) = let n = tracked fs in elim f.track [ none ↦ n | some tm ↦ n + 1 ]

module _ (D : Doubles) where
  -- The event of a frame.
  abbrev pub event_of : Frame → FuseKf → Option Reseed
  event_of f s = elim (transform_ip D f s) [ none ↦ none | some r ↦ r.1 ]

  -- No frame of the list, the oldest first, sends an event.
  abbrev pub Quiet : List Frame → FuseKf → Type 0
  Quiet [] s = Unit
  Quiet (f ∷ fs) s = (event_of f s ≡ none) × Quiet fs (step D f s)

  reseed_cooldown-publish :
      (k : KalmanBox) (tm : TrackMeta) (s : FuseKf)
      → (publish D k tm s).1.reseed_cooldown ≡ s.reseed_cooldown
  unfolding publish
  reseed_cooldown-publish k tm s = ground arith

  limits-publish :
      (k : KalmanBox) (tm : TrackMeta) (s : FuseKf)
      → ((publish D k tm s).1.lost ≡ s.lost) × ((publish D k tm s).1.max_lost ≡ s.max_lost)
  unfolding publish
  limits-publish k tm s = (ground arith, ground arith)

  frames-publish :
      (k : KalmanBox) (tm : TrackMeta) (s : FuseKf)
      → (publish D k tm s).1.reseed_cooldown_frames ≡ s.reseed_cooldown_frames
  unfolding publish
  frames-publish k tm s = ground arith

  reseed_cooldown-stamped :
      (pts : Option ℕ) (s : FuseKf)
      → ((stamped pts s).reseed_cooldown ≡ s.reseed_cooldown)
        × ((stamped pts s).reseed_cooldown_frames ≡ s.reseed_cooldown_frames)
  reseed_cooldown-stamped none s = (refl, refl)
  reseed_cooldown-stamped (some t) s = (refl, refl)

  -- An event is sent only when the counter has run down, and the counter then begins anew.
  reseed_when :
      (yolo : Option Box) (s : FuseKf) (e : Reseed)
      → (reseed D yolo s).0 ≡ some e
      → (s.max_lost < s.lost) × ((reseed D yolo s).1.reseed_cooldown ≡ s.reseed_cooldown_frames)
  unfolding reseed
  reseed_when none s e h = absurd (cc)
  reseed_when (some y) s e h = (ground arith, ground arith)

  reseed_quiet :
      (yolo : Option Box) (s : FuseKf)
      → 1 < s.reseed_cooldown
      → ((reseed D yolo s).0 ≡ none) × ((reseed D yolo s).1.reseed_cooldown + 1 ≡ s.reseed_cooldown)
  unfolding reseed
  reseed_quiet none s h = (refl, omega arith)
  reseed_quiet (some y) s h = (ground arith, ground arith)

  not_held :
      (k : KalmanBox) (s : FuseKf)
      → s.max_lost < s.lost
      → (k.initiated && leb s.lost s.max_lost) ≡ false
  not_held k s h = ground arith

  -- The same of a buffer with a track meta.
  fuse_when :
      (k : KalmanBox) (tm : TrackMeta) (f : Frame) (s : FuseKf) (e : Reseed)
      → (fuse D k tm f s).1 ≡ some e
      → ((fuse D k tm f s).0.valid ≡ false)
        × ((fuse D k tm f s).2.reseed_cooldown ≡ s.reseed_cooldown_frames)
  unfolding fuse
  fuse_when k tm f s e h =
      let yolo = best_det D s f.det tm.frame_width tm.frame_height in
      let (k', pred) = observe D s (time_step D s f.pts f.duration) tm yolo k in
      let counted : FuseKf = record (stamped f.pts s) {
        kf = some k';
        lost = if has_sam D tm then 0 else s.lost + 1;
      } in
      let (tm', s') = publish D k' tm counted in
      let (lost, anew) = reseed_when yolo s' e h in
      (
        valid-flush D s' pred yolo tm'
            ∙ (valid-publish D k' tm counted
                ∙ not_held k' counted (
                    omega (
                      arith,
                      lost,
                      (limits-publish k' tm counted).0,
                      (limits-publish k' tm counted).1,
                    ))),
        anew ∙ (frames-publish k' tm counted ∙ (reseed_cooldown-stamped f.pts s).1),
      )

  fuse_quiet :
      (k : KalmanBox) (tm : TrackMeta) (f : Frame) (s : FuseKf)
      → 1 < s.reseed_cooldown
      → ((fuse D k tm f s).1 ≡ none) × ((fuse D k tm f s).2.reseed_cooldown + 1 ≡ s.reseed_cooldown)
  unfolding fuse
  fuse_quiet k tm f s h =
      let yolo = best_det D s f.det tm.frame_width tm.frame_height in
      let (k', pred) = observe D s (time_step D s f.pts f.duration) tm yolo k in
      let counted : FuseKf = record (stamped f.pts s) {
        kf = some k';
        lost = if has_sam D tm then 0 else s.lost + 1;
      } in
      let s' = (publish D k' tm counted).1 in
      let same : s'.reseed_cooldown ≡ s.reseed_cooldown =
        reseed_cooldown-publish k' tm counted ∙ (reseed_cooldown-stamped f.pts s).0 in
      let (event, less) = reseed_quiet yolo s' (rw same h) in (event, less ∙ same)

  event_some :
      (f : Frame) (s : FuseKf) (tm : TrackMeta) (k : KalmanBox)
      → f.track ≡ some tm
      → s.kf ≡ some k
      → event_of f s ≡ (fuse D k tm f s).1
  event_some f s tm k p q = rw (transform_ip-fuse D f s tm k p q, event_of)

  transform_ip-untracked :
      (f : Frame) (s : FuseKf)
      → (f.track ≡ none) ⊎ (s.kf ≡ none)
      → (event_of f s ≡ none) × (step D f s ≡ s)
  unfolding transform_ip
  transform_ip-untracked f s (inl p) = (ground arith, ground arith)
  transform_ip-untracked f s (inr q) = (ground arith, ground arith)

  tracked_le : (f : Frame) (fs : List Frame) → tracked fs ≤ tracked (f ∷ fs)
  tracked_le f fs = ground arith

  idle :
      (f : Frame) (fs : List Frame) (s : FuseKf)
      → (f.track ≡ none) ⊎ (s.kf ≡ none)
      → Quiet fs s
      → Quiet (f ∷ fs) s
  idle f fs s u rest = let (event, same) = transform_ip-untracked f s u in (event, rw same rest)

  -- While the counter is above the number of frames with a track meta, no event is sent.
  quiet : (fs : List Frame) (s : FuseKf) → tracked fs < s.reseed_cooldown → Quiet fs s
  quiet [] s h = tt
  quiet (f ∷ fs) s h =
      let rest = quiet fs s (omega (arith, tracked_le f fs)) in
      elim (Option-cases f.track) [
        | inl p ↦ idle f fs s (inl p) rest
        | inr (tm, p) ↦ elim (Option-cases s.kf) [
          | inl q ↦ idle f fs s (inr q) rest
          | inr (k, q) ↦
              let n : tracked (f ∷ fs) ≡ tracked fs + 1 = ground (arith, p) in
              let (event, less) = fuse_quiet k tm f s (omega arith) in
              (
                event_some f s tm k p q ∙ event,
                rw (step-some D f s tm k p q) (quiet fs (fuse D k tm f s).2 (omega arith)),
              )
        ]
      ]

  -- A frame that asks for a new seed leaves with a track that is not valid, and of the frames with a
  -- track meta behind it none of the first reseed_cooldown_frames - 1 asks for one, whatever the frames
  -- hold.
  pub transform_ip-Quiet :
      (f : Frame) (s s' : FuseKf) (out : TrackMeta) (e : Reseed) (fs : List Frame)
      → transform_ip D f s ≡ some (some out, some e, s')
      → tracked fs < s.reseed_cooldown_frames
      → (out.valid ≡ false) × Quiet fs s'
  transform_ip-Quiet f s s' out e fs h n =
      let asked : event_of f s ≡ some e = rw (h, event_of) refl in
      elim (Option-cases f.track) [
        | inl p ↦ absurd (cc (asked, (transform_ip-untracked f s (inl p)).0))
        | inr (tm, p) ↦ elim (Option-cases s.kf) [
          | inl q ↦ absurd (cc (asked, (transform_ip-untracked f s (inr q)).0))
          | inr (k, q) ↦
              let same = sym (transform_ip-fuse D f s tm k p q) ∙ h in
              let sent : (fuse D k tm f s).1 ≡ some e = cc in
              let left : (fuse D k tm f s).0 ≡ out = cc in
              let next : (fuse D k tm f s).2 ≡ s' = cc in
              let (lost, anew) = fuse_when k tm f s e sent in
              let above : s'.reseed_cooldown ≡ s.reseed_cooldown_frames = cc in
              (ap (λ (m : TrackMeta). m.valid) (sym left) ∙ lost, quiet fs s' (omega arith))
        ]
      ]
