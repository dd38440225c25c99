-- ===== src/Consts.antt =====
-- gst/nvmmsamurai/samurai_consts.hpp: the file of constant tensors. A file is its bytes, and memory for
-- what it announces is always there.
pub mod Encode
use gst_nvmm_cpp.Common.{
  ℕ, zero, suc, ◌+◌, ◌-◌, ◌*◌, ◌%◌, ◌^◌, List, [], ◌∷◌, ◌++◌, Option, none, some, Bool, true, false,
  ◌&&◌, length, ltb, ◌==◌, if◌then◌else◌,
}
use gst_nvmm_cpp.Common.Int.{ℤ, pos, negsuc}
use gst_nvmm_cpp.Common.Float.{F32}
use gst_nvmm_cpp.Common.Text.{codes}

pub record ConstTensor : Type 0 where
  pub shape : List ℤ
  pub data' : List F32

-- `open_files` is the number of files that the process has open.
pub record SamuraiConsts : Type 0 where
  pub tensors : List (List ℕ × ConstTensor)
  pub open_files : ℕ

abbrev pub same_name : List ℕ → List ℕ → Bool
same_name [] [] = true
same_name [] (b ∷ bs) = false
same_name (a ∷ as') [] = false
same_name (a ∷ as') (b ∷ bs) = (a == b) && same_name as' bs

-- tensors_[name] = t
unfoldable pub store :
    List ℕ → ConstTensor → List (List ℕ × ConstTensor) → List (List ℕ × ConstTensor)
store name t [] = (name, t) ∷ []
store name t ((m, u) ∷ rest) =
    if same_name m name then (name, t) ∷ rest else (m, u) ∷ store name t rest

-- SamuraiConsts::get
unfoldable pub get : List ℕ → List (List ℕ × ConstTensor) → Option ConstTensor
get name [] = none
get name ((m, t) ∷ rest) = if same_name m name then some t else get name rest

-- fread of `n` bytes, and what is left of the file
unfoldable pub read_bytes : ℕ → List ℕ → Option (List ℕ × List ℕ)
read_bytes zero bytes = some ([], bytes)
read_bytes (suc n) [] = none
read_bytes (suc n) (b ∷ bytes) = elim (read_bytes n bytes) [
  | none ↦ none
  | some (read, rest) ↦ some (b ∷ read, rest)
]

abbrev u32_of : List ℕ → ℕ
u32_of [] = 0
u32_of (b ∷ bs) = b + 256 * u32_of bs

-- Four bytes, little-endian
unfoldable pub rd_u32 : List ℕ → Option (ℕ × List ℕ)
unfolding read_bytes
rd_u32 bytes = elim (read_bytes 4 bytes) [
  | none ↦ none
  | some (word, rest) ↦ some (u32_of word, rest)
]

-- (int)dim
abbrev pub to_int32 : ℕ → ℤ
to_int32 n = if ltb n (2 ^ 31) then pos n else negsuc (2 ^ 32 - 1 - n)

-- The dimensions, and the number of elements, which wraps around at 64 bits.
unfoldable pub read_dims : ℕ → ℕ → List ℕ → Option ((List ℤ × ℕ) × List ℕ)
read_dims zero n bytes = some (([], n), bytes)
read_dims (suc d) n bytes = elim (rd_u32 bytes) [
  | none ↦ none
  | some (dim, rest) ↦ elim (read_dims d (n * dim % 2 ^ 64) rest) [
    | none ↦ none
    | some ((shape, m), rest') ↦ some ((to_int32 dim ∷ shape, m), rest')
  ]
]

unfoldable pub read_floats : ℕ → List ℕ → Option (List F32 × List ℕ)
read_floats zero bytes = some ([], bytes)
read_floats (suc n) bytes = elim (rd_u32 bytes) [
  | none ↦ none
  | some (x, rest) ↦ elim (read_floats n rest) [
    | none ↦ none
    | some (xs, rest') ↦ some (x ∷ xs, rest')
  ]
]

-- One round of the loop: the error, or the tensor and what is left.
pub data Round : Type 0 where
  stopped : List ℕ → Round
  tensor : List ℕ → ConstTensor → List ℕ → Round

abbrev pub or_stop {ℓ} : {A : Type ℓ} → Option (A × List ℕ) → List ℕ → (A → List ℕ → Round) → Round
or_stop none err k = stopped err
or_stop (some (a, rest)) err k = k a rest

unfoldable pub read_tensor : List ℕ → Round
read_tensor bytes = or_stop (rd_u32 bytes) (codes "truncated name len") (λ nlen b.
    or_stop (read_bytes nlen b) (codes "truncated name") (λ name b.
      or_stop (rd_u32 b) (codes "truncated ndim") (λ ndim b.
        or_stop (read_dims ndim 1 b) (codes "truncated dim") (λ (shape, n) b.
          or_stop (read_floats n b) (codes "truncated data for " ++ name)
            (λ xs b. tensor name (record { shape = shape; data' = xs }) b)))))

abbrev pub Loaded : Type 0
Loaded = Option (List ℕ) × SamuraiConsts

-- fclose, and the answer: the error, or `none` for true.
abbrev pub finish : Option (List ℕ) → SamuraiConsts → Loaded
finish err s = (err, record s { open_files = s.open_files - 1 })

unfoldable pub load_tensors : ℕ → List ℕ → SamuraiConsts → Loaded
load_tensors zero bytes s = finish none s
load_tensors (suc count) bytes s = elim (read_tensor bytes) [
  | stopped err ↦ finish (some err) s
  | tensor name t rest ↦ load_tensors count rest (record s { tensors = store name t s.tensors })
]

abbrev pub magic : ℕ
magic = 0x5341434E

-- SamuraiConsts::load of the file `path`, which is there or not
unfoldable pub load : List ℕ → Option (List ℕ) → SamuraiConsts → Loaded
load path none s = (some (codes "cannot open consts: " ++ path), s)
load path (some bytes) s =
    let opened : SamuraiConsts = record s { open_files = s.open_files + 1 } in
    let bad = finish (some (codes "bad consts magic/header")) opened in
    elim (rd_u32 bytes) [
      | none ↦ bad
      | some (m, rest) ↦ elim (rd_u32 rest) [
        | none ↦ bad
        | some (count, rest') ↦ if m == magic then load_tensors count rest' opened else bad
      ]
    ]
