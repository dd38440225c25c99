-- ===== src/SecondaryInfer/Ready.antt =====
-- What start leaves behind (gst/nvmmsecondaryinfer/gstnvmmsecondaryinfer.cpp).
use gst_nvmm_cpp.Common.{
  ℕ, ◌≤◌, ◌≡◌, refl, sym, subst, List, [], ◌∷◌, Option, none, some, Bool, true, false, ◌&&◌, leb,
  if◌then◌else◌, arith, Bool-cases, inl, inr,
}
use gst_nvmm_cpp.SecondaryInfer.{
  Text, TensorInfo, SecondaryInfer, parse_triplet, dim, Answers, Start, refused, going, ◌>>=◌,
  require, require_stop, stop, start, has_text, load_labels, load_engine, fit_engine, with_tensors,
  tensors_of, bind_engine, head_ok, present,
}

-- Nothing is held.
pub record Idle (s : SecondaryInfer) : Type 0 where
  pub engine : s.engine ≡ none
  pub cache : s.cache ≡ none
  pub d_input : s.d_input ≡ false
  pub d_output : s.d_output ≡ false
  pub stream : s.stream ≡ false

-- The labels that the file gives.
abbrev pub labels_of : Bool → Option (List Text) → List Text
labels_of false lines = []
labels_of true none = []
labels_of true (some ls) = present ls

-- Everything that transform_ip uses is there, and is what the libraries answered.
pub record IsReady (a : Answers) (s : SecondaryInfer) : Type 0 where
  pub tensors : List TensorInfo
  pub input : TensorInfo
  pub output : TensorInfo
  pub made : a.engine ≡ some tensors
  pub engine : s.engine ≡ some tensors
  pub one_input : tensors_of true tensors ≡ input ∷ []
  pub one_output : tensors_of false tensors ≡ output ∷ []
  pub floats : (input.is_float ≡ true) × (output.is_float ≡ true)
  pub bound : (a.in_bound ≡ true) × (a.out_bound ≡ true)
  pub net_size : (s.net_h ≡ dim input.dims 2) × (s.net_w ≡ dim input.dims 3)
  pub num_classes : s.num_classes ≡ output.volume
  pub host_out : s.host_out ≡ s.num_classes
  pub classes : 2 ≤ s.num_classes
  pub configured :
      a.configured
        (parse_triplet a.split a.strtod s.offsets_str).0
        (parse_triplet a.split a.strtod s.std_str).0
      ≡ true
  pub pre : s.pre ≡ true
  pub labels : s.labels ≡ labels_of (has_text s.labels_file) a.lines
  pub cache :
      s.cache
      ≡ some (record {
        params = record { infer_interval = s.infer_interval; max_age = s.max_track_age };
        entries = [];
      })
  pub d_input : s.d_input ≡ true
  pub d_output : s.d_output ≡ true
  pub stream : s.stream ≡ true
  pub frame_no : s.frame_no ≡ 0

abbrev pub Ends : (SecondaryInfer → Type 0) → Start → Type 0
Ends P (refused s) = Idle s
Ends P (going s) = P s

stop-Idle : (s : SecondaryInfer) → Idle (stop s)
unfolding stop
stop-Idle s = record { engine = refl; cache = refl; d_input = refl; d_output = refl; stream = refl }

module _ (P : SecondaryInfer → Type 0) where
  require_stop-Ends :
      (ok : Bool) (s : SecondaryInfer) (f : SecondaryInfer → Start)
      → ((ok ≡ true) → Ends P (f s))
      → Ends P (require_stop ok s >>= f)
  unfolding require_stop ◌>>=◌
  require_stop-Ends true s f h = h refl
  require_stop-Ends false s f h = stop-Idle s

  require-Ends :
      (ok : Bool) (s : SecondaryInfer) (f : SecondaryInfer → Start)
      → Idle s
      → Ends P (f s)
      → Ends P (require ok s >>= f)
  unfolding require ◌>>=◌
  require-Ends true s f i h = h
  require-Ends false s f i h = i

  >>=-Ends :
      (Q : SecondaryInfer → Type 0) (m : Start) (f : SecondaryInfer → Start)
      → Ends Q m
      → ((s : SecondaryInfer) → Q s → Ends P (f s))
      → Ends P (m >>= f)
  unfolding ◌>>=◌
  >>=-Ends Q (refused s) f i h = i
  >>=-Ends Q (going s) f q h = h s q

both : (a b : Bool) → (a && b) ≡ true → (a ≡ true) × (b ≡ true)
both true true h = (refl, refl)
both true false h = (refl, h)
both false b h = absurd (cc)

enough : (n : ℕ) → leb 2 n ≡ true → 2 ≤ n
enough n h = ground arith

-- The labels are those of the file.
abbrev Labelled : Answers → SecondaryInfer → Type 0
Labelled a s = s.labels ≡ labels_of (has_text s.labels_file) a.lines

-- The stream, the engine and the labels are there.
abbrev Loaded : Answers → List TensorInfo → SecondaryInfer → Type 0
Loaded a ts s = (s.stream ≡ true) × (a.engine ≡ some ts) × (s.engine ≡ some ts) × Labelled a s

bind_engine-Ends :
    (a : Answers) (ts : List TensorInfo) (i o : TensorInfo) (s : SecondaryInfer)
    → Loaded a ts s
    → tensors_of true ts ≡ i ∷ []
    → tensors_of false ts ≡ o ∷ []
    → Ends (IsReady a) (bind_engine a i o s)
unfolding bind_engine
bind_engine-Ends a ts i o s (stream, answered, engine, labels) ins outs =
    require_stop-Ends (IsReady a) _ _ _ λ floats. require_stop-Ends (IsReady a) _ _ _ λ shape.
      require_stop-Ends (IsReady a) _ _ _ λ head. require_stop-Ends (IsReady a) _ _ _ λ allocated.
        require_stop-Ends (IsReady a) _ _ _ λ bound. require_stop-Ends (IsReady a) _ _ _ λ offsets.
          require_stop-Ends (IsReady a) _ _ _ λ std.
            require_stop-Ends (IsReady a) _ _ _ λ configured. record {
              tensors = ts;
              input = i;
              output = o;
              made = answered;
              engine = engine;
              one_input = ins;
              one_output = outs;
              floats = both i.is_float o.is_float floats;
              bound = both a.in_bound a.out_bound bound;
              net_size = (refl, refl);
              num_classes = refl;
              host_out = refl;
              classes = enough o.volume (both (head_ok o.dims) (leb 2 o.volume) head).1;
              configured = configured;
              pre = refl;
              labels = labels;
              cache = refl;
              d_input = (both a.in_made a.out_made allocated).0;
              d_output = (both a.in_made a.out_made allocated).1;
              stream = stream;
              frame_no = refl;
            }

with_tensors-Ends :
    (a : Answers) (ts ins outs : List TensorInfo) (s : SecondaryInfer)
    → Loaded a ts s
    → tensors_of true ts ≡ ins
    → tensors_of false ts ≡ outs
    → Ends (IsReady a) (with_tensors ins outs a s)
with_tensors-Ends a ts [] outs s l p q = stop-Idle s
with_tensors-Ends a ts (i ∷ []) [] s l p q = stop-Idle s
with_tensors-Ends a ts (i ∷ []) (o ∷ []) s l p q = bind_engine-Ends a ts i o s l p q
with_tensors-Ends a ts (i ∷ []) (o ∷ o' ∷ os) s l p q = stop-Idle s
with_tensors-Ends a ts (i ∷ i' ∷ is) outs s l p q = stop-Idle s

abbrev IdleLabelled : Answers → SecondaryInfer → Type 0
IdleLabelled a s = Idle s × Labelled a s

load_labels-Ends :
    (a : Answers) (s : SecondaryInfer) → Idle s → Ends (IdleLabelled a) (load_labels a s)
unfolding load_labels
load_labels-Ends a s i = elim (Bool-cases (has_text s.labels_file)) [
  | inl t ↦ rw t (read t a.lines refl)
  | inr t ↦ rw t (cleared [], rw t refl)
]
  where
    cleared : (ls : List Text) → Idle (record s { labels = ls })
    cleared ls = record {
      engine = i.engine;
      cache = i.cache;
      d_input = i.d_input;
      d_output = i.d_output;
      stream = i.stream;
    }

    read :
        has_text s.labels_file ≡ true
        → (lines : Option (List Text)) → a.lines ≡ lines
        → Ends (IdleLabelled a) (elim lines [
          | none ↦ refused (record s { labels = [] })
          | some ls ↦ going (record s { labels = present ls })
        ])
    read t none e = cleared []
    read t (some ls) e = (cleared (present ls), rw (t, e) refl)

abbrev SomeLoaded : Answers → SecondaryInfer → Type 0
SomeLoaded a s = (ts : List TensorInfo) × Loaded a ts s

load_engine-Ends :
    (a : Answers) (s : SecondaryInfer) → IdleLabelled a s → Ends (SomeLoaded a) (load_engine a s)
unfolding load_engine
load_engine-Ends a s (i, labels) = by a.stream_made a.engine refl
  where
    by :
        (made : Bool) (engine : Option (List TensorInfo))
        → a.engine ≡ engine
        → Ends (SomeLoaded a) (
            if made
            then elim engine [
              | none ↦ refused (record s { stream = false })
              | some ts ↦ going (record s { stream = true; engine = some ts })
            ]
            else refused s)
    by false engine e = i
    by true none e = record {
      engine = i.engine;
      cache = i.cache;
      d_input = i.d_input;
      d_output = i.d_output;
      stream = refl;
    }
    by true (some ts) e = (ts, (refl, e, refl, labels))

fit_engine-Ends :
    (a : Answers) (s : SecondaryInfer) → SomeLoaded a s → Ends (IsReady a) (fit_engine a s)
fit_engine-Ends a s (ts, l) =
    subst
      (λ (o : Option (List TensorInfo)). Ends (IsReady a) (elim o [
        | none ↦ refused s
        | some us ↦ with_tensors (tensors_of true us) (tensors_of false us) a s
      ]))
      (sym l.2) (with_tensors-Ends a ts (tensors_of true ts) (tensors_of false ts) s l refl refl)

-- On an element that holds nothing, whatever the libraries answer, start either refuses and holds nothing
-- afterwards, or keeps the engine that was made, of one input and one output, both of floats and bound, and
-- leaves the element with its stream, both buffers, a preprocessor configured with its offsets and its
-- standard deviations, the network's size, as many scores as classes, which are the output's volume, two at
-- least, the labels of the file, an empty cache with the element's interval and age, and frame 0.
pub start-Ends : (a : Answers) (s : SecondaryInfer) → Idle s → Ends (IsReady a) (start a s)
unfolding start
start-Ends a s i = require-Ends (IsReady a) _ _ _ i (
    >>=-Ends (IsReady a) (IdleLabelled a) _ _ (load_labels-Ends a s i) λ s2 i2.
      >>=-Ends (IsReady a) (SomeLoaded a) _ _ (load_engine-Ends a s2 i2)
        λ s3 l. fit_engine-Ends a s3 l)
