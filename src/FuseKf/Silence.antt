-- ===== src/FuseKf/Silence.antt =====
-- When the track is valid (gst/nvmmfusekf/gstnvmmfusekf.cpp).
use gst_nvmm_cpp.Common.{
  ℕ, ◌+◌, ◌≡◌, refl, sym, ◌∙◌, List, [], ◌∷◌, Option, none, some, Bool, true, false, ◌&&◌, leb,
  if◌then◌else◌, arith, inl, inr, Option-cases,
}
use gst_nvmm_cpp.Gate.Element.{F64}
use gst_nvmm_cpp.Kalman.{
  Doubles, KalmanBox, Box, new_kalman, predict, update, initiated-predict, initiated-update,
  initiated-initiate,
}
use gst_nvmm_cpp.FuseKf.{
  TrackMeta, FuseKf, Frame, Reseed, start, has_sam, centred, observe, publish, flush, reseed, fuse,
  best_det, time_step, stamped, transform_ip,
}

max_lost-stamped : (pts : Option ℕ) (s : FuseKf) → (stamped pts s).max_lost ≡ s.max_lost
max_lost-stamped none s = refl
max_lost-stamped (some t) s = refl

module _ (D : Doubles) where
  -- The state after a frame.
  abbrev pub step : Frame → FuseKf → FuseKf
  step f s = elim (transform_ip D f s) [ none ↦ s | some r ↦ r.2 ]

  -- The state after start and some frames, of which the newest is the list's first.
  pub after : List Frame → FuseKf → FuseKf
  after [] s = start s
  after (f ∷ hist) s = step f (after hist s)

  -- The frames with a track meta since SAMURAI's last measurement, and whether there was one.
  abbrev pub silence : List Frame → ℕ
  silence [] = 0
  silence (f ∷ hist) =
      let n = silence hist in
      elim f.track [ none ↦ n | some tm ↦ if has_sam D tm then 0 else n + 1 ]

  abbrev pub ever_sam : List Frame → Bool
  ever_sam [] = false
  ever_sam (f ∷ hist) =
      let b = ever_sam hist in
      elim f.track [ none ↦ b | some tm ↦ if has_sam D tm then true else b ]

  initiated-observe :
      (s : FuseKf) (dt : F64) (tm : TrackMeta) (yolo : Option Box) (k : KalmanBox)
      → (observe D s dt tm yolo k).0.initiated ≡ (if has_sam D tm then true else k.initiated)
  unfolding observe
  initiated-observe s dt tm none k = ground (
    arith,
    initiated-predict D dt k,
    initiated-update D (centred D tm) (predict D dt k),
    initiated-initiate D (centred D tm),
  )
  initiated-observe s dt tm (some y) k = ground (
    arith,
    initiated-predict D dt k,
    initiated-update D (centred D tm) (predict D dt k),
    initiated-update D y (predict D dt k),
    initiated-update D y (update D (centred D tm) (predict D dt k)),
    initiated-initiate D (centred D tm),
  )

  -- The fields that publish, reseed and flush leave alone.
  record Same (s s' : FuseKf) : Type 0 where
    kf : s'.kf ≡ s.kf
    lost : s'.lost ≡ s.lost
    max_lost : s'.max_lost ≡ s.max_lost

  publish-Same : (k : KalmanBox) (tm : TrackMeta) (s : FuseKf) → Same s (publish D k tm s).1
  unfolding publish
  publish-Same k tm s = ground arith

  reseed-Same : (yolo : Option Box) (s : FuseKf) → Same s (reseed D yolo s).1
  unfolding reseed
  reseed-Same none s = ground arith
  reseed-Same (some y) s = ground arith

  pub valid-publish :
      (k : KalmanBox) (tm : TrackMeta) (s : FuseKf)
      → (publish D k tm s).0.valid ≡ (k.initiated && leb s.lost s.max_lost)
  unfolding publish
  valid-publish k tm s = ground arith

  pub valid-flush :
      (s : FuseKf) (pred yolo : Option Box) (tm : TrackMeta)
      → (flush D s pred yolo tm).valid ≡ tm.valid
  unfolding flush
  valid-flush s pred none tm = refl
  valid-flush s pred (some y) tm = ground arith

  -- What one buffer with a track meta makes of the state.
  record Fused (k : KalmanBox) (tm : TrackMeta) (s : FuseKf) (tm' : TrackMeta) (s' : FuseKf)
      : Type 0 where
    filter : KalmanBox
    held : s'.kf ≡ some filter
    begun : filter.initiated ≡ (if has_sam D tm then true else k.initiated)
    lost : s'.lost ≡ (if has_sam D tm then 0 else s.lost + 1)
    limit : s'.max_lost ≡ s.max_lost
    valid : tm'.valid ≡ (filter.initiated && leb s'.lost s'.max_lost)

  fuse-Fused :
      (k : KalmanBox) (tm : TrackMeta) (f : Frame) (s : FuseKf)
      → let (tm', event, s') = fuse D k tm f s in Fused k tm s tm' s'
  unfolding fuse
  fuse-Fused k tm f s =
      let yolo = best_det D s f.det tm.frame_width tm.frame_height in
      let dt = time_step D s f.pts f.duration in
      let (k', pred) = observe D s dt tm yolo k in
      let counted : FuseKf = record (stamped f.pts s) {
        kf = some k';
        lost = if has_sam D tm then 0 else s.lost + 1;
      } in
      let (tm', s') = publish D k' tm counted in
      let p = publish-Same k' tm counted in
      let r = reseed-Same yolo s' in
      record {
        filter = k';
        held = r.kf ∙ p.kf;
        begun = initiated-observe s dt tm yolo k;
        lost = r.lost ∙ p.lost;
        limit = r.max_lost ∙ (p.max_lost ∙ max_lost-stamped f.pts s);
        valid =
            valid-flush s' pred yolo tm'
            ∙ (valid-publish k' tm counted ∙ cc (p.lost, p.max_lost, r.lost, r.max_lost));
      }

  -- The state follows the frames that it has seen.
  record Follows (s0 : FuseKf) (hist : List Frame) (s : FuseKf) : Type 0 where
    filter : KalmanBox
    held : s.kf ≡ some filter
    begun : filter.initiated ≡ ever_sam hist
    lost : s.lost ≡ silence hist
    limit : s.max_lost ≡ s0.max_lost

  start-Follows : (s : FuseKf) → Follows s [] (start s)
  unfolding start
  start-Follows s = record {
    filter = new_kalman;
    held = refl;
    begun = refl;
    lost = refl;
    limit = refl;
  }

  pub transform_ip-fuse :
      (f : Frame) (s : FuseKf) (tm : TrackMeta) (k : KalmanBox)
      → f.track ≡ some tm
      → s.kf ≡ some k
      → let (out, event, s') = fuse D k tm f s in transform_ip D f s ≡ some (some out, event, s')
  unfolding transform_ip
  transform_ip-fuse f s tm k p q = ground arith

  pub step-none : (f : Frame) (s : FuseKf) → f.track ≡ none → step f s ≡ s
  unfolding transform_ip
  step-none f s p = ground arith

  pub step-some :
      (f : Frame) (s : FuseKf) (tm : TrackMeta) (k : KalmanBox)
      → f.track ≡ some tm
      → s.kf ≡ some k
      → step f s ≡ (fuse D k tm f s).2
  step-some f s tm k p q = rw (transform_ip-fuse f s tm k p q, step)

  silence-some :
      (f : Frame) (hist : List Frame) (tm : TrackMeta)
      → f.track ≡ some tm
      → (silence (f ∷ hist) ≡ (if has_sam D tm then 0 else silence hist + 1))
        × (ever_sam (f ∷ hist) ≡ (if has_sam D tm then true else ever_sam hist))
  silence-some f hist tm p = (ground arith, ground arith)

  step-Follows :
      (s0 : FuseKf) (f : Frame) (hist : List Frame) (s : FuseKf)
      → Follows s0 hist s
      → Follows s0 (f ∷ hist) (step f s)
  step-Follows s0 f hist s w = elim (Option-cases f.track) [
    | inl p ↦ rw (step-none f s p) (record {
      filter = w.filter;
      held = w.held;
      begun = ground (arith, w.begun);
      lost = ground (arith, w.lost);
      limit = w.limit;
    })
    | inr (tm, p) ↦
        let u = fuse-Fused w.filter tm f s in
        let (quiet, ever) = silence-some f hist tm p in
        rw (step-some f s tm w.filter p w.held) (record {
          filter = u.filter;
          held = u.held;
          begun = u.begun ∙ rw w.begun (sym ever);
          lost = u.lost ∙ rw w.lost (sym quiet);
          limit = u.limit ∙ w.limit;
        })
  ]

  after-Follows : (s : FuseKf) (hist : List Frame) → Follows s hist (after hist s)
  unfolding after
  after-Follows s [] = start-Follows s
  after-Follows s (f ∷ hist) = step-Follows s f hist (after hist s) (after-Follows s hist)

  -- After start and any frames, a buffer with a track meta leaves the element, and its track is valid
  -- exactly when SAMURAI has measured since start, in this frame or an earlier one, and no more than
  -- max_lost frames with a track meta have passed since; so no detection starts or keeps a track.
  pub transform_ip-valid :
      (s : FuseKf) (hist : List Frame) (f : Frame) (tm : TrackMeta)
      → f.track ≡ some tm
      → (r : TrackMeta × Option Reseed × FuseKf) × (transform_ip D f (after hist s)
          ≡ some (some r.0, r.1, r.2))
        × (r.0.valid ≡ (ever_sam (f ∷ hist) && leb (silence (f ∷ hist)) s.max_lost))
  transform_ip-valid s hist f tm p =
      let w = after-Follows s hist in
      let u = fuse-Fused w.filter tm f (after hist s) in
      let (quiet, ever) = silence-some f hist tm p in
      (
        fuse D w.filter tm f (after hist s),
        transform_ip-fuse f (after hist s) tm w.filter p w.held,
        u.valid ∙ rw (u.begun, u.lost, u.limit, w.begun, w.lost, w.limit, quiet, ever) refl,
      )
