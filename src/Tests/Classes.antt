-- ===== src/Tests/Classes.antt =====
-- gst/nvmmsecondaryinfer/gstnvmmsecondaryinfer.cpp: start with an engine of three classes, and a buffer with a
-- known and a new track.
use gst_nvmm_cpp.Common.{
  ℕ, ◌^◌, ◌≡◌, refl, List, [], ◌∷◌, Option, none, some, true, false, arith, get_or,
}
use gst_nvmm_cpp.Common.Int.{pos, is_negative}
use gst_nvmm_cpp.Common.Float.{whole}
use gst_nvmm_cpp.DetMeta.{BufferMeta}
use gst_nvmm_cpp.Draw.{ClassEntry}
use gst_nvmm_cpp.Gate.Element.{no_object}
use gst_nvmm_cpp.SecondaryCache.{SecondaryCache, lookup, due, store, expire}
use gst_nvmm_cpp.SecondaryInfer.{
  SecondaryInfer, Answers, Start, refused, going, init, start, stop, load_labels, load_engine,
  bind_engine, input_ok, head_ok, parse_triplet, read_tokens, require, require_stop, ◌>>=◌,
}
use gst_nvmm_cpp.SecondaryInfer.Ready.{Idle, IsReady, Ends, start-Ends}
use gst_nvmm_cpp.SecondaryInfer.Classify.{
  Incoming, transform_ip, classify_meta, classify_all, classify, look, keep_result, infer, top1,
  best_class, label_of, unclassified,
}
use gst_nvmm_cpp.SecondaryInfer.Steps.{IsSound}
use gst_nvmm_cpp.SecondaryInfer.Known.{after, transform_ip-known}
use gst_nvmm_cpp.Tests.Kf.{whole_doubles}

abbrev answers : Answers
answers = record {
  lines = none;
  stream_made = true;
  engine = some (
      record {
        is_input = true;
        is_float = true;
        dims = pos 1 ∷ pos 3 ∷ pos 64 ∷ pos 32 ∷ [];
        volume = 6144;
        bytes = 24576;
      }
      ∷ record {
        is_input = false;
        is_float = true;
        dims = pos 1 ∷ pos 3 ∷ [];
        volume = 3;
        bytes = 12;
      }
      ∷ []);
  in_made = true;
  out_made = true;
  in_bound = true;
  out_bound = true;
  split = λ t. t ∷ [];
  strtod = λ t. none;
  configured = λ offsets std. true;
}

abbrev element : SecondaryInfer
element = record init { engine_file = some (b'e' ∷ []); activation = 1 }

element-Idle : Idle element
element-Idle = record {
  engine = refl;
  cache = refl;
  d_input = refl;
  d_output = refl;
  stream = refl;
}

start-Ends_example : Ends (IsReady answers) (start answers element)
start-Ends_example = start-Ends answers element element-Idle

abbrev classes_of : Start → ℕ
classes_of (refused s) = 0
classes_of (going s) = s.num_classes

three_classes : classes_of (start answers element) ≡ 3
unfolding start load_labels load_engine bind_engine input_ok head_ok parse_triplet require
    require_stop ◌>>=◌
three_classes = refl

-- Offsets that are no numbers are refused.
abbrev bad_offsets : SecondaryInfer
bad_offsets = record element { offsets_str = some (b'x' ∷ []) }

offsets_refused :
    start answers bad_offsets
    ≡ refused (
        stop (record bad_offsets { num_classes = 3; net_h = pos 64; net_w = pos 32; host_out = 3 }))
unfolding start load_labels load_engine bind_engine input_ok head_ok parse_triplet read_tokens
    require require_stop ◌>>=◌ stop
offsets_refused = refl

-- Track 7 was seen in frame 3, with class 2.
abbrev known : SecondaryCache
known = record {
  params = record { infer_interval = 10; max_age = 20 };
  entries =
      (
        7,
        record {
          result = record { class_id = pos 2; confidence = 5; label = b'b' ∷ [] };
          last_infer = 3;
          last_seen = 3;
        },
      )
      ∷ [];
}

abbrev running : SecondaryInfer
running = record element { cache = some known; frame_no = 4 }

abbrev met : BufferMeta
met = record {
  frame_number = 0;
  infer_width = 0;
  infer_height = 0;
  flags = 0;
  num_objects = 2;
  objects =
      record no_object { width = 0; height = 0; tracker_id = 7 }
      ∷ record no_object { width = 2 ^ 32; height = 2 ^ 32; tracker_id = 9 }
      ∷ [];
}

abbrev buffer : Incoming
buffer = record {
  surface = some (640, 480);
  det = some met;
  scores = λ i l t w h. some (3 ∷ 8 ∷ 4 ∷ []);
}

abbrev empty_buffer : Incoming
empty_buffer = record buffer { det = none }

known-IsSound : IsSound known.entries
known-IsSound = ((tt, tt), λ j x h. ground (arith, h))

abbrev named : ℕ → List ℕ
named i = i ∷ []

transform_ip-known_example :
    (r : List ClassEntry × SecondaryInfer) × (transform_ip whole whole_doubles
        (λ x. x)
        named
        buffer
        (after whole whole_doubles (λ x. x) named (empty_buffer ∷ empty_buffer ∷ []) running)
      ≡ some (some r.0, r.1))
    × (is_negative (get_or r.0 0 unclassified).class_id ≡ false)
transform_ip-known_example =
    transform_ip-known whole whole_doubles (λ x. x) named (empty_buffer ∷ empty_buffer ∷ []) running
      known
      (record {
        result = record { class_id = pos 2; confidence = 5; label = b'b' ∷ [] };
        last_infer = 3;
        last_seen = 3;
      })
      buffer met 640 480 0 refl known-IsSound refl (omega arith) (omega arith) (omega arith)
      (omega arith) refl refl (omega arith)

abbrev entries_of : Option (Option (List ClassEntry) × SecondaryInfer) → List ClassEntry
entries_of none = []
entries_of (some (none, s)) = []
entries_of (some (some es, s)) = es

-- The first object is too small to infer, and the second is new.
cached_and_new :
    entries_of (transform_ip whole whole_doubles (λ x. x) named buffer running)
    ≡ record { class_id = pos 2; confidence = 5; fresh = 0; label = b'b' ∷ [] }
      ∷ record { class_id = pos 1; confidence = 8; fresh = 1; label = 1 ∷ [] }
      ∷ []
unfolding transform_ip classify_meta classify_all classify look keep_result infer top1 best_class
    label_of lookup due store expire
cached_and_new = refl
