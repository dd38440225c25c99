-- ===== src/Tests/Seeds.antt =====
-- gst/nvmmdetgate at concrete inputs: two detections, a gate that confirms at once, and three points.
use gst_nvmm_cpp.Common.{
  ℕ, zero, suc, ◌+◌, ◌/◌, ◌%◌, ◌^◌, ◌≤◌, ◌<◌, ◌≡◌, refl, List, [], ◌∷◌, some, true, false, All,
  get_or, length, ltb, arith,
}
use gst_nvmm_cpp.Common.Float.{whole}
use gst_nvmm_cpp.Common.Int.{pos}
use gst_nvmm_cpp.Common.Text.{codes}
use gst_nvmm_cpp.Ipc.Protocol.{DetObject}
use gst_nvmm_cpp.DetMeta.{BufferMeta}
use gst_nvmm_cpp.Gate.{
  DetGate, new_gate, update, begin_frame, update_open, tracked, associate_all, associate, nearest,
  sample, reap, select, in_active, confirm, augmented,
}
use gst_nvmm_cpp.Gate.Blob.{GateDet, MotionSample, find, indices, unite_all}
use gst_nvmm_cpp.Gate.Recent.{Indexes}
use gst_nvmm_cpp.Gate.Answers.{Answer, update_answer}
use gst_nvmm_cpp.Gate.Roots.{searched, find-ends}
use gst_nvmm_cpp.Gate.Element.{
  DoubleOps, Matcher, GateElement, Incoming, init, trim, prepare, gate_cfg, gate_dets, dets_of,
  decide, ask_gate, emit, filter_dets, transform_ip,
}
use gst_nvmm_cpp.Gate.Emitted.{Emitted, transform_ip-Emitted}

abbrev doubles : DoubleOps
doubles = record { narrow = λ x. x; centre = λ l w. l + w / 2; below = λ c m. ltb c m }

abbrev still : Matcher ℕ
still = record { empty = λ x. false; samples = λ a b c w h. [] }

abbrev in_order : List GateDet → List ℕ
in_order ds = indices (length ds) 0

in_order-Indexes : Indexes in_order
in_order-Indexes ds = below (length ds) 0 (length ds) (omega arith)
  where
    below : (n i m : ℕ) → i + n ≤ m → All (λ k. k < m) (indices n i)
    below zero i m h = tt
    below (suc n) i m h = (omega (arith, h), below n (i + 1) m (omega (arith, h)))

abbrev object : ℕ → ℕ → DetObject
object cls x = record {
  left = x;
  top = x;
  width = 10;
  height = 10;
  class_id = pos cls;
  confidence = 9;
  tracker_id = 0;
  label = [];
}

abbrev two_objects : BufferMeta
two_objects = record {
  frame_number = 0;
  infer_width = 0;
  infer_height = 0;
  flags = 0;
  num_objects = 2;
  objects = object 7 40 ∷ object 3 80 ∷ [];
}

abbrev element : GateElement ℕ
element = record init {
  engine_dir = some (codes "engines");
  target_class = 3;
  min_conf = 5;
  dlt = 0;
  amin = 1;
  ksup = 0;
  borderfrac = 0;
}

abbrev buffer : Incoming ℕ
buffer = record { surface = some (640, 480); det = some two_objects; features = 1; starts = true }

abbrev ready : GateElement ℕ
ready = record element {
  matcher = true;
  matcher_ready = true;
  gate = some (new_gate (gate_cfg whole doubles still in_order element));
  frame_no = 1;
}

element_starts :
    prepare whole doubles still in_order true (record element { frame_no = (0 + 1) % 2 ^ 64 })
    ≡ some ready
unfolding prepare gate_cfg
element_starts = refl

-- The object of the target class alone leaves the element.
one_passes :
    (transform_ip whole doubles still in_order buffer element).0
    ≡ some (record two_objects { num_objects = 1; objects = object 3 80 ∷ object 3 80 ∷ [] })
unfolding transform_ip prepare gate_cfg filter_dets trim decide ask_gate dets_of gate_dets emit
    update begin_frame update_open tracked associate_all associate nearest sample reap select
    in_active confirm augmented
one_passes = refl

transform_ip-Emitted_example :
    (m' : BufferMeta) × ((transform_ip whole doubles still in_order
        (record buffer { det = some two_objects })
        element).0
      ≡ some m')
    × Emitted whole doubles still in_order ready two_objects m'
transform_ip-Emitted_example =
    transform_ip-Emitted whole doubles still in_order buffer element ready 640 480 two_objects refl
      refl element_starts (omega arith) in_order-Indexes

abbrev detection : GateDet
detection = record { cx = 85; cy = 85; w = 10; h = 10; conf = 9; src_index = pos 1 }

abbrev gate : DetGate
gate = new_gate (gate_cfg whole doubles still in_order element)

update_answer_example :
    let (j, g') = update whole in_order [] (detection ∷ []) 640 480 gate in
    Answer gate.cfg (gate.fcount + 1) (detection ∷ []) j g'
update_answer_example =
    update_answer whole in_order [] (detection ∷ []) 640 480 gate (refl, tt) in_order-Indexes

abbrev points : List MotionSample
points =
    record { x = 10; y = 10; resid = 20 }
    ∷ record { x = 30; y = 30; resid = 20 }
    ∷ record { x = 12; y = 12; resid = 20 }
    ∷ []

find-ends_example :
    let parent = searched 9 (1 ∷ []) (unite_all whole 9 48 points 0 (indices 3 0)) in
    let (r, parent') = find 9 parent 0 in get_or parent' r r ≡ r
find-ends_example = find-ends whole 48 points (1 ∷ []) 0
