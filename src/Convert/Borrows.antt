-- ===== src/Convert/Borrows.antt =====
-- The surfaces that transform borrows (gst/nvmmconvert/gstnvmmconvert.cpp).
use gst_nvmm_cpp.Common.{ℕ, ◌≡◌, refl, List, Option, none, some, Bool, true, false, if◌then◌else◌}
use gst_nvmm_cpp.Surface.Types.{ok, err, k_transform_failed}
use gst_nvmm_cpp.Surface.Buffer.{Owned, release}
use gst_nvmm_cpp.Surface.Transform
use gst_nvmm_cpp.Surface.Transform.{Library, request}
use gst_nvmm_cpp.Convert.{Convert, params_of, is_ok, transform}

abbrev pub handle_of : Option Owned → Option ℕ
handle_of none = none
handle_of (some o) = some o.handle

abbrev pub succeeds : Library → Convert → Option Owned → Option Owned → Bool
succeeds run s none dst = false
succeeds run s (some a) none = false
succeeds run s (some a) (some b) = (run a.buf b.buf (request (params_of s))).0

-- Whatever the library answers, transform destroys no surface: those that exist stay, and the output buffer
-- keeps its own; and it succeeds just when both buffers have surfaces and the library does.
pub transform_borrows :
    (run : Library) (s : Convert) (src dst : Option Owned) (session : ℕ) (live : List ℕ)
    → let (done, out, session', live') = transform run s src dst session live in
      (live' ≡ live) × (handle_of out ≡ handle_of dst) × (done ≡ succeeds run s src dst)
unfolding transform Transform.transform release
transform_borrows run s none dst session live = (refl, refl, refl)
transform_borrows run s (some a) none session live = (refl, refl, refl)
transform_borrows run s (some a) (some b) session live =
    (refl, refl, by (run a.buf b.buf (request (params_of s))).0)
  where
    by : (t : Bool) → is_ok (if t then ok tt else err k_transform_failed) ≡ t
    by true = refl
    by false = refl
