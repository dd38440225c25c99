-- ===== src/SecondaryInfer.antt =====
-- gst/nvmmsecondaryinfer/gstnvmmsecondaryinfer.cpp: the element around the cache. TensorRT, CUDA, GLib's text
-- functions and binary64 arithmetic are parameters; a size fits 31 bits.
pub mod Ready
pub mod Classify
pub mod Steps
pub mod Known
use gst_nvmm_cpp.Common.{
  ℕ, zero, suc, ◌+◌, ◌-◌, ◌%◌, ◌^◌, List, [], ◌∷◌, ◌++◌, Option, none, some, Bool, true, false,
  ◌&&◌, ◌||◌, not, get_or, take, length, ltb, leb, ◌==◌, if◌then◌else◌,
}
use gst_nvmm_cpp.Common.Int.{ℤ, pos, negsuc, eq_ℤ, to_nat}
use gst_nvmm_cpp.Common.Float.{F32, FloatOps}
use gst_nvmm_cpp.Ipc.Protocol.{DetObject, meta_label_len}
use gst_nvmm_cpp.DetMeta.{BufferMeta}
use gst_nvmm_cpp.Draw.{ClassEntry}
use gst_nvmm_cpp.Gate.Element.{F64, no_object}
use gst_nvmm_cpp.Kalman.{Doubles}
use gst_nvmm_cpp.SecondaryCache.{
  ClassResult, SecondaryCache, SecondaryCacheParams, due, store, lookup, expire,
}

-- A tensor of the engine: its dimensions, and how many numbers and bytes it has.
pub record TensorInfo : Type 0 where
  pub is_input : Bool
  pub is_float : Bool
  pub dims : List ℤ
  pub volume : ℕ
  pub bytes : ℕ

abbrev pub Text : Type 0
Text = List ℕ

-- `engine`, `stream`, `d_input` and `d_output` are null or what was made; `pre` says whether the preprocessor
-- is configured; `host_out` is the size of the vector.
pub record SecondaryInfer : Type 0 where
  pub engine_file : Option Text
  pub labels_file : Option Text
  pub infer_interval : ℕ
  pub max_track_age : ℕ
  pub min_roi : ℕ
  pub net_scale : F64
  pub offsets_str : Option Text
  pub std_str : Option Text
  pub color_order : ℕ
  pub activation : ℕ
  pub conf_threshold : F64
  pub engine : Option (List TensorInfo)
  pub pre : Bool
  pub cache : Option SecondaryCache
  pub stream : Bool
  pub d_input : Bool
  pub d_output : Bool
  pub host_out : ℕ
  pub labels : List Text
  pub net_w : ℤ
  pub net_h : ℤ
  pub num_classes : ℕ
  pub frame_no : ℕ

-- gst_nvmm_secondary_infer_init
abbrev pub init : SecondaryInfer
init = record {
  engine_file = none;
  labels_file = none;
  infer_interval = 10;
  max_track_age = 60;
  min_roi = 16;
  net_scale = 0x3F70101010101010;
  offsets_str = none;
  std_str = none;
  color_order = 0;
  activation = 0;
  conf_threshold = 0;
  engine = none;
  pre = false;
  cache = none;
  stream = false;
  d_input = false;
  d_output = false;
  host_out = 0;
  labels = [];
  net_w = pos 0;
  net_h = pos 0;
  num_classes = 0;
  frame_no = 0;
}

pub data Property : Type 0 where
  prop_engine_file prop_labels_file prop_offsets prop_std_values : Option Text → Property
  prop_infer_interval prop_max_track_age prop_min_roi_size : ℕ → Property
  prop_net_scale_factor prop_conf_threshold : F64 → Property
  prop_color_order prop_output_activation : ℕ → Property

unfoldable pub set_property : Property → SecondaryInfer → SecondaryInfer
set_property (prop_engine_file v) s = record s { engine_file = v }
set_property (prop_labels_file v) s = record s { labels_file = v }
set_property (prop_offsets v) s = record s { offsets_str = v }
set_property (prop_std_values v) s = record s { std_str = v }
set_property (prop_infer_interval v) s = record s { infer_interval = v }
set_property (prop_max_track_age v) s = record s { max_track_age = v }
set_property (prop_min_roi_size v) s = record s { min_roi = v }
set_property (prop_net_scale_factor v) s = record s { net_scale = v }
set_property (prop_conf_threshold v) s = record s { conf_threshold = v }
set_property (prop_color_order v) s = record s { color_order = v }
set_property (prop_output_activation v) s = record s { activation = v }

-- gst_nvmm_secondary_infer_stop
unfoldable pub stop : SecondaryInfer → SecondaryInfer
stop s = record s {
  engine = none;
  pre = false;
  cache = none;
  d_input = false;
  d_output = false;
  stream = false;
}

abbrev pub has_text : Option Text → Bool
has_text none = false
has_text (some []) = false
has_text (some (c ∷ cs)) = true

-- The loop of parse_triplet over the stripped tokens, with `n` and the numbers in `out`. `strtod` reads a
-- whole token.
unfoldable pub read_tokens : (Text → Option F32) → List Text → ℕ → List F32 → ℕ × List F32
read_tokens strtod [] n out = (n, out)
read_tokens strtod ([] ∷ ts) n out = elim (leb n 3) [
  | true ↦ read_tokens strtod ts n out
  | false ↦ (n, out)
]
read_tokens strtod ((c ∷ t) ∷ ts) n out = elim (leb n 3) [
  | true ↦ elim (strtod (c ∷ t)) [
    | none ↦ (0, out)
    | some v ↦ read_tokens strtod ts (n + 1) (if ltb n 3 then out ++ (v ∷ []) else out)
  ]
  | false ↦ (n, out)
]

-- The numbers, if there are some, and `ok`. `split` cuts a text at its commas and semicolons and strips the
-- pieces.
unfoldable pub parse_triplet :
    (Text → List Text) → (Text → Option F32) → Option Text → Option (List F32) × Bool
parse_triplet split strtod none = (none, true)
parse_triplet split strtod (some []) = (none, true)
parse_triplet split strtod (some (c ∷ cs)) =
    let (n, out) = read_tokens strtod (split (c ∷ cs)) 0 [] in
    if n == 3 then (some out, true) else (none, false)

abbrev pub present : List Text → List Text
present [] = []
present ([] ∷ ls) = present ls
present ((c ∷ l) ∷ ls) = (c ∷ l) ∷ present ls

-- How start goes on: it has returned FALSE, or not yet.
pub data Start : Type 0 where
  refused going : SecondaryInfer → Start

infixl 5 ◌>>=◌
unfoldable pub ◌>>=◌ : Start → (SecondaryInfer → Start) → Start
refused s >>= f = refused s
going s >>= f = f s

-- A test whose failure returns at once, and one that stops the element first.
unfoldable pub require : Bool → SecondaryInfer → Start
require ok s = if ok then going s else refused s

unfoldable pub require_stop : Bool → SecondaryInfer → Start
require_stop ok s = if ok then going s else refused (stop s)

-- What the libraries answer: the stripped lines of the labels' file, whether the stream is made, the engine's
-- tensors, whether the two buffers are allocated and bound, and whether the preprocessor is configured.
pub record Answers : Type 0 where
  pub lines : Option (List Text)
  pub stream_made : Bool
  pub engine : Option (List TensorInfo)
  pub in_made : Bool
  pub out_made : Bool
  pub in_bound : Bool
  pub out_bound : Bool
  pub split : Text → List Text
  pub strtod : Text → Option F32
  pub configured : Option (List F32) → Option (List F32) → Bool

unfoldable pub load_labels : Answers → SecondaryInfer → Start
load_labels a s =
    let cleared : SecondaryInfer = record s { labels = [] } in
    if has_text s.labels_file
    then elim a.lines [
      | none ↦ refused cleared
      | some ls ↦ going (record s { labels = present ls })
    ]
    else going cleared

-- The stream and the engine; without an engine the stream is destroyed.
unfoldable pub load_engine : Answers → SecondaryInfer → Start
load_engine a s =
    if a.stream_made
    then elim a.engine [
      | none ↦ refused (record s { stream = false })
      | some ts ↦ going (record s { stream = true; engine = some ts })
    ]
    else refused s

-- The tensors that are inputs, or the others.
abbrev pub tensors_of : Bool → List TensorInfo → List TensorInfo
tensors_of input [] = []
tensors_of input (t ∷ ts) =
    let rest = tensors_of input ts in
    if (if t.is_input then input else not input) then t ∷ rest else rest

abbrev pub is_one : ℤ → Bool
is_one d = eq_ℤ d (pos 1)

unfoldable pub input_ok : List ℤ → Bool
input_ok [] = false
input_ok (n ∷ []) = false
input_ok (n ∷ c ∷ []) = false
input_ok (n ∷ c ∷ h ∷ []) = false
input_ok (n ∷ c ∷ h ∷ w ∷ []) = is_one n && eq_ℤ c (pos 3)
input_ok (n ∷ c ∷ h ∷ w ∷ d ∷ ds) = false

unfoldable pub head_ok : List ℤ → Bool
head_ok [] = false
head_ok (c ∷ []) = true
head_ok (n ∷ c ∷ []) = is_one n
head_ok (n ∷ c ∷ h ∷ []) = false
head_ok (n ∷ c ∷ h ∷ w ∷ []) = is_one n && (is_one h && is_one w)
head_ok (n ∷ c ∷ h ∷ w ∷ d ∷ ds) = false

abbrev pub dim : List ℤ → ℕ → ℤ
dim ds i = get_or ds i (pos 0)

-- The checks of the engine's one input and one output, the buffers, and the preprocessor.
unfoldable pub bind_engine : Answers → TensorInfo → TensorInfo → SecondaryInfer → Start
bind_engine a input output s =
    let (offsets, offsets_ok) = parse_triplet a.split a.strtod s.offsets_str in
    let (std_values, std_ok) = parse_triplet a.split a.strtod s.std_str in
    do
      s1 ← require_stop (input.is_float && output.is_float) s
      s2 ← require_stop (input_ok input.dims) s1
      s3 ←
          require_stop (head_ok output.dims && leb 2 output.volume)
            (record s2 { net_h = dim input.dims 2; net_w = dim input.dims 3 })
      s4 ←
          require_stop (a.in_made && a.out_made)
            (record s3 { num_classes = output.volume; d_input = a.in_made; d_output = a.out_made })
      s5 ← require_stop (a.in_bound && a.out_bound) (record s4 { host_out = output.volume })
      s6 ← require_stop offsets_ok s5
      s7 ← require_stop std_ok s6
      s8 ← require_stop (a.configured offsets std_values) s7
      going (record s8 {
        pre = true;
        cache = some (record {
          params = record { infer_interval = s8.infer_interval; max_age = s8.max_track_age };
          entries = [];
        });
        frame_no = 0;
      })

-- Exactly one input and one output.
abbrev pub with_tensors : List TensorInfo → List TensorInfo → Answers → SecondaryInfer → Start
with_tensors [] outs a s = refused (stop s)
with_tensors (i ∷ []) [] a s = refused (stop s)
with_tensors (i ∷ []) (o ∷ []) a s = bind_engine a i o s
with_tensors (i ∷ []) (o ∷ o' ∷ os) a s = refused (stop s)
with_tensors (i ∷ i' ∷ is) outs a s = refused (stop s)

abbrev pub fit_engine : Answers → SecondaryInfer → Start
fit_engine a s = elim s.engine [
  | none ↦ refused s
  | some ts ↦ with_tensors (tensors_of true ts) (tensors_of false ts) a s
]

-- gst_nvmm_secondary_infer_start
unfoldable pub start : Answers → SecondaryInfer → Start
start a s = do
  s1 ← require (has_text s.engine_file) s
  s2 ← load_labels a s1
  s3 ← load_engine a s2
  fit_engine a s3
