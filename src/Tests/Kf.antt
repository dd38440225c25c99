-- ===== src/Tests/Kf.antt =====
-- gst/nvmmfusekf/gstnvmmfusekf.cpp: SAMURAI measures once and is lost, with a limit of one frame.
use gst_nvmm_cpp.Common.{
  ◌+◌, ◌-◌, ◌*◌, ◌/◌, ◌≡◌, refl, [], ◌∷◌, Option, none, some, true, false, arith, ltb, leb, ◌==◌,
  ◌&&◌,
}
use gst_nvmm_cpp.Kalman.{Doubles, new_kalman}
use gst_nvmm_cpp.Gate.Element.{no_object}
use gst_nvmm_cpp.FuseKf.{
  TrackMeta, FuseKf, Frame, Reseed, init, transform_ip, fuse, observe, publish, flush, reseed,
  best_det, best_object, has_sam,
}
use gst_nvmm_cpp.FuseKf.Silence.{after, step, ever_sam, silence, transform_ip-valid}
use gst_nvmm_cpp.FuseKf.Cooldown.{Quiet, transform_ip-Quiet}

abbrev pub whole_doubles : Doubles
whole_doubles = record {
  add = λ a b. a + b;
  sub = λ a b. a - b;
  mul = λ a b. a * b;
  div = λ a b. a / b;
  sqrt = λ a. a;
  hypot = λ a b. a + b;
  lt = ltb;
  is_zero = λ a. a == 0;
  of_nat = λ n. n;
  widen = λ a. a;
  narrow = λ a. a;
}

abbrev element : FuseKf
element = record init { max_lost = 1; det_conf = 1; reseed_cooldown_frames = 3 }

abbrev no_track : TrackMeta
no_track = record {
  frame_width = 640;
  frame_height = 480;
  valid = false;
  target_id = 0;
  left = 0;
  top = 0;
  width = 0;
  height = 0;
}

abbrev track : TrackMeta
track = record no_track { valid = true; left = 10; top = 10; width = 4; height = 4 }

abbrev measured : Frame
measured = record { track = some track; det = none; pts = none; duration = none }

abbrev silent : Frame
silent = record { track = some no_track; det = none; pts = none; duration = none }

transform_ip-valid_example :
    (r : TrackMeta × Option Reseed × FuseKf) × (transform_ip whole_doubles silent
        (after whole_doubles (silent ∷ measured ∷ []) element)
      ≡ some (some r.0, r.1, r.2))
    × (r.0.valid ≡ (
        ever_sam whole_doubles (silent ∷ silent ∷ measured ∷ [])
        && leb (silence whole_doubles (silent ∷ silent ∷ measured ∷ [])) 1))
transform_ip-valid_example =
    transform_ip-valid whole_doubles element (silent ∷ measured ∷ []) silent no_track refl

two_silent : silence whole_doubles (silent ∷ silent ∷ measured ∷ []) ≡ 2
unfolding has_sam
two_silent = refl

-- The track has been published and is one frame from being lost.
abbrev fading : FuseKf
fading = record element { kf = some new_kalman; lost = 1; ever_valid = true }

abbrev seen : Frame
seen = record silent {
  det = some (record {
    frame_number = 0;
    infer_width = 640;
    infer_height = 480;
    flags = 0;
    num_objects = 1;
    objects =
        record no_object { left = 100; top = 50; width = 20; height = 30; confidence = 9 } ∷ [];
  });
}

abbrev corner_of_seen : Reseed
corner_of_seen = record { x = 100; y = 50; w = 20; h = 30 }

abbrev asked : FuseKf
asked = record fading { lost = 2; reseed_cooldown = 3 }

asks : transform_ip whole_doubles seen fading ≡ some (some no_track, some corner_of_seen, asked)
unfolding transform_ip fuse observe publish flush reseed best_det best_object has_sam
asks = refl

transform_ip-Quiet_example : (no_track.valid ≡ false) × Quiet whole_doubles (seen ∷ seen ∷ []) asked
transform_ip-Quiet_example =
    transform_ip-Quiet whole_doubles seen fading asked no_track corner_of_seen (seen ∷ seen ∷ [])
      asks (omega arith)

third_asks :
    transform_ip whole_doubles seen (step whole_doubles seen (step whole_doubles seen asked))
    ≡ some (some no_track, some corner_of_seen, record asked { lost = 5 })
unfolding transform_ip fuse observe publish flush reseed best_det best_object has_sam
third_asks = refl
