-- ===== src/Tests/Tensors.antt =====
-- gst/nvmmsamurai/samurai_consts.hpp on a file of two tensors, and on broken files.
use gst_nvmm_cpp.Common.{◌≡◌, refl, [], ◌∷◌, none, some, arith}
use gst_nvmm_cpp.Common.Int.{pos}
use gst_nvmm_cpp.Common.Text.{codes}
use gst_nvmm_cpp.Consts.{
  SamuraiConsts, store, get, read_bytes, rd_u32, read_tensor, load_tensors, load,
}
use gst_nvmm_cpp.Consts.Encode.{Written, IsWritten, encode, store_all, put_u32, load-encode}

abbrev fresh : SamuraiConsts
fresh = record { tensors = []; open_files = 2 }

abbrev bias : Written
bias = record { name = codes "b"; dims = 2 ∷ []; values = 7 ∷ 300 ∷ [] }

abbrev weights : Written
weights = record { name = codes "w"; dims = 1 ∷ 2 ∷ []; values = 1 ∷ 2 ∷ [] }

bias-IsWritten : IsWritten bias
bias-IsWritten = record {
  short = omega arith;
  few = omega arith;
  dims = (omega arith, tt);
  values = (omega arith, (omega arith, tt));
  full = refl;
}

weights-IsWritten : IsWritten weights
weights-IsWritten = record {
  short = omega arith;
  few = omega arith;
  dims = (omega arith, (omega arith, tt));
  values = (omega arith, (omega arith, tt));
  full = refl;
}

load-encode_example :
    load (codes "c.bin") (some (encode (bias ∷ weights ∷ []))) fresh
    ≡ (none, record fresh { tensors = store_all (bias ∷ weights ∷ []) [] })
load-encode_example =
    load-encode (codes "c.bin") (bias ∷ weights ∷ []) fresh
      (bias-IsWritten, (weights-IsWritten, tt)) (omega arith)

found_again :
    get (codes "w") (store_all (bias ∷ weights ∷ []) [])
    ≡ some (record { shape = pos 1 ∷ pos 2 ∷ []; data' = 1 ∷ 2 ∷ [] })
unfolding get store
found_again = refl

wrong_magic :
    load (codes "c.bin") (some (0 ∷ 0 ∷ 0 ∷ 0 ∷ 0 ∷ 0 ∷ 0 ∷ 0 ∷ [])) fresh
    ≡ (some (codes "bad consts magic/header"), fresh)
unfolding load rd_u32 read_bytes
wrong_magic = refl

-- One tensor is announced, and the file ends.
cut_short :
    load (codes "c.bin") (some (0x4E ∷ 0x43 ∷ 0x41 ∷ 0x53 ∷ put_u32 1)) fresh
    ≡ (some (codes "truncated name len"), fresh)
unfolding load rd_u32 read_bytes load_tensors read_tensor
cut_short = refl
