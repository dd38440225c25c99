-- ===== src/Consts/Encode.antt =====
-- gst/nvmmsamurai/samurai_consts.hpp: the format, written out, and its reading.
use gst_nvmm_cpp.Common.{
  ℕ, suc, ◌+◌, ◌*◌, ◌/◌, ◌%◌, ◌^◌, ◌<◌, ◌≡◌, refl, ap, ◌∙◌, List, [], ◌∷◌, ◌++◌, none, some, All,
  length, map, arith,
}
use gst_nvmm_cpp.Common.Int.{ℤ}
use gst_nvmm_cpp.Common.Float.{F32}
use gst_nvmm_cpp.Consts.{
  ConstTensor, SamuraiConsts, store, read_bytes, rd_u32, to_int32, read_dims, read_floats, tensor,
  read_tensor, finish, load_tensors, magic, load,
}

-- A tensor as it is written: its name, its dimensions and its data.
pub record Written : Type 0 where
  pub name : List ℕ
  pub dims : List ℕ
  pub values : List F32

abbrev pub put_u32 : ℕ → List ℕ
put_u32 n = n % 256 ∷ n / 256 % 256 ∷ n / 65536 % 256 ∷ n / 16777216 % 256 ∷ []

-- The words, and then the rest of the file.
abbrev pub put_all : List ℕ → List ℕ → List ℕ
put_all [] rest = rest
put_all (x ∷ xs) rest = put_u32 x ++ put_all xs rest

abbrev pub encode_tensor : Written → List ℕ → List ℕ
encode_tensor w rest =
    put_u32 (length w.name)
    ++ (w.name ++ (put_u32 (length w.dims) ++ put_all w.dims (put_all w.values rest)))

abbrev pub encode_tensors : List Written → List ℕ
encode_tensors [] = []
encode_tensors (w ∷ ws) = encode_tensor w (encode_tensors ws)

abbrev pub encode : List Written → List ℕ
encode ws = put_u32 magic ++ (put_u32 (length ws) ++ encode_tensors ws)

-- The number of elements, as the dimensions say.
abbrev pub elements : ℕ → List ℕ → ℕ
elements n [] = n
elements n (d ∷ ds) = elements (n * d % 2 ^ 64) ds

abbrev pub Word : ℕ → Type 0
Word n = n < 2 ^ 32

-- Every number fits in 32 bits, and there are as many values as the dimensions say.
pub record IsWritten (w : Written) : Type 0 where
  pub short : Word (length w.name)
  pub few : Word (length w.dims)
  pub dims : All Word w.dims
  pub values : All Word w.values
  pub full : elements 1 w.dims ≡ length w.values

abbrev pub tensor_of : Written → ConstTensor
tensor_of w = record { shape = map to_int32 w.dims; data' = w.values }

-- The map after all of them are stored, in their order.
abbrev pub store_all : List Written → List (List ℕ × ConstTensor) → List (List ℕ × ConstTensor)
store_all [] tensors = tensors
store_all (w ∷ ws) tensors = store_all ws (store w.name (tensor_of w) tensors)

rd_u32-put_u32 : (n : ℕ) (rest : List ℕ) → Word n → rd_u32 (put_u32 n ++ rest) ≡ some (n, rest)
unfolding rd_u32 read_bytes
rd_u32-put_u32 n rest h = ap (λ m. some (m, rest)) (omega (arith, h))

read_bytes-append : (bs rest : List ℕ) → read_bytes (length bs) (bs ++ rest) ≡ some (bs, rest)
unfolding read_bytes
read_bytes-append [] rest = refl
read_bytes-append (b ∷ bs) rest = rw (read_bytes-append bs rest) refl

read_floats_next :
    (n x : ℕ) (bytes rest rest' : List ℕ) (xs : List F32)
    → rd_u32 bytes ≡ some (x, rest)
    → read_floats n rest ≡ some (xs, rest')
    → read_floats (suc n) bytes ≡ some (x ∷ xs, rest')
unfolding read_floats
read_floats_next n x bytes rest rest' xs e f = ground (arith, e, f)

read_dims_next :
    (d n dim m : ℕ) (bytes rest rest' : List ℕ) (shape : List ℤ)
    → rd_u32 bytes ≡ some (dim, rest)
    → read_dims d (n * dim % 2 ^ 64) rest ≡ some ((shape, m), rest')
    → read_dims (suc d) n bytes ≡ some ((to_int32 dim ∷ shape, m), rest')
unfolding read_dims
read_dims_next d n dim m bytes rest rest' shape e f = ground (arith, e, f)

load_next :
    (count : ℕ) (bytes name rest : List ℕ) (t : ConstTensor) (s : SamuraiConsts)
    → read_tensor bytes ≡ tensor name t rest
    → load_tensors (suc count) bytes s
      ≡ load_tensors count rest (record s { tensors = store name t s.tensors })
unfolding load_tensors
load_next count bytes name rest t s e = ground (arith, e)

load_header :
    (path bytes rest rest' : List ℕ) (count : ℕ) (s : SamuraiConsts)
    → rd_u32 bytes ≡ some (magic, rest)
    → rd_u32 rest ≡ some (count, rest')
    → load path (some bytes) s
      ≡ load_tensors count rest' (record s { open_files = s.open_files + 1 })
unfolding load
load_header path bytes rest rest' count s e f = ground (arith, e, f)

read_tensor_parts :
    (bytes b1 name b2 b3 b4 b5 : List ℕ) (nlen ndim n : ℕ) (shape : List ℤ) (xs : List F32)
    → rd_u32 bytes ≡ some (nlen, b1)
    → read_bytes nlen b1 ≡ some (name, b2)
    → rd_u32 b2 ≡ some (ndim, b3)
    → read_dims ndim 1 b3 ≡ some ((shape, n), b4)
    → read_floats n b4 ≡ some (xs, b5)
    → read_tensor bytes ≡ tensor name (record { shape = shape; data' = xs }) b5
unfolding read_tensor
read_tensor_parts bytes b1 name b2 b3 b4 b5 nlen ndim n shape xs e f g h k = rw (e, f, g, h, k) refl

read_floats-put_all :
    (xs rest : List ℕ) → All Word xs → read_floats (length xs) (put_all xs rest) ≡ some (xs, rest)
unfolding read_floats
read_floats-put_all [] rest a = refl
read_floats-put_all (x ∷ xs) rest a =
    read_floats_next (length xs) x _ (put_all xs rest) rest xs
      (rd_u32-put_u32 x (put_all xs rest) a.0) (read_floats-put_all xs rest a.1)

read_dims-put_all :
    (n : ℕ) (ds rest : List ℕ)
    → All Word ds
    → read_dims (length ds) n (put_all ds rest) ≡ some ((map to_int32 ds, elements n ds), rest)
unfolding read_dims
read_dims-put_all n [] rest a = refl
read_dims-put_all n (d ∷ ds) rest a =
    read_dims_next (length ds) n d _ _ (put_all ds rest) rest (map to_int32 ds)
      (rd_u32-put_u32 d (put_all ds rest) a.0) (read_dims-put_all (n * d % 2 ^ 64) ds rest a.1)

read_tensor-encode_tensor :
    (w : Written) (rest : List ℕ)
    → IsWritten w
    → read_tensor (encode_tensor w rest) ≡ tensor w.name (tensor_of w) rest
read_tensor-encode_tensor w rest ok =
    let values = put_all w.values rest in
    let dims = put_all w.dims values in
    let after_name = put_u32 (length w.dims) ++ dims in
    read_tensor_parts _ (w.name ++ after_name) w.name after_name dims values rest (length w.name)
      (length w.dims) (length w.values) (map to_int32 w.dims) w.values
      (rd_u32-put_u32 (length w.name) (w.name ++ after_name) ok.short)
      (read_bytes-append w.name after_name) (rd_u32-put_u32 (length w.dims) dims ok.few)
      (read_dims-put_all 1 w.dims values ok.dims
        ∙ ap (λ n. some ((map to_int32 w.dims, n), values)) ok.full)
      (read_floats-put_all w.values rest ok.values)

load_tensors-encode_tensors :
    (ws : List Written) (s : SamuraiConsts)
    → All IsWritten ws
    → load_tensors (length ws) (encode_tensors ws) s
      ≡ finish none (record s { tensors = store_all ws s.tensors })
unfolding load_tensors
load_tensors-encode_tensors [] s a = refl
load_tensors-encode_tensors (w ∷ ws) s a =
    load_next (length ws) _ w.name (encode_tensors ws) (tensor_of w) s
      (read_tensor-encode_tensor w (encode_tensors ws) a.0)
    ∙ load_tensors-encode_tensors ws (record s { tensors = store w.name (tensor_of w) s.tensors })
        a.1

-- A file that is written in the format, with fewer than 2 ^ 32 tensors, each as long as its dimensions say,
-- is loaded: every tensor is stored under its name, in the order of the file, and the file is closed.
pub load-encode :
    (path : List ℕ) (ws : List Written) (s : SamuraiConsts)
    → All IsWritten ws
    → Word (length ws)
    → load path (some (encode ws)) s ≡ (none, record s { tensors = store_all ws s.tensors })
load-encode path ws s a h =
    let opened : SamuraiConsts = record s { open_files = s.open_files + 1 } in
    load_header path _ (put_u32 (length ws) ++ encode_tensors ws) (encode_tensors ws) (length ws) s
      (rd_u32-put_u32 magic (put_u32 (length ws) ++ encode_tensors ws) (omega arith))
      (rd_u32-put_u32 (length ws) (encode_tensors ws) h)
    ∙ (load_tensors-encode_tensors ws opened a
        ∙ ap (λ n. (none, record s { tensors = store_all ws s.tensors; open_files = n }))
            (omega arith))
