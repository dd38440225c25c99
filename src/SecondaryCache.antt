-- ===== src/SecondaryCache.antt =====
-- gst/nvmmsecondaryinfer/secondary_cache.cpp: the classification of each track, with the frames in
-- which it was last inferred and last seen.
pub mod Laws
pub mod Keys
use gst_nvmm_cpp.Common.{
  ℕ, ◌+◌, ◌-◌, ◌%◌, ◌^◌, List, [], ◌∷◌, Option, none, some, Bool, true, false, length, leb, ltb,
  ◌==◌, if◌then◌else◌,
}
use gst_nvmm_cpp.Common.Int.{ℤ}
use gst_nvmm_cpp.Common.Float.{F32}

pub record ClassResult : Type 0 where
  pub class_id : ℤ
  pub confidence : F32
  pub label : List ℕ

pub record SecondaryCacheParams : Type 0 where
  pub infer_interval : ℕ
  pub max_age : ℕ

pub record Entry : Type 0 where
  pub result : ClassResult
  pub last_infer : ℕ
  pub last_seen : ℕ

abbrev pub Entries : Type 0
Entries = List (ℕ × Entry)

-- The hash map is an association list.
pub record SecondaryCache : Type 0 where
  pub params : SecondaryCacheParams
  pub entries : Entries

abbrev pub find : ℕ → Entries → Option Entry
find id [] = none
find id ((k, e) ∷ m) = if k == id then some e else find id m

abbrev pub assign : ℕ → Entry → Entries → Entries
assign id e [] = (id, e) ∷ []
assign id e ((k, old) ∷ m) = if k == id then (k, e) ∷ m else (k, old) ∷ assign id e m

-- The difference of two 64-bit frame numbers.
abbrev pub elapsed : ℕ → ℕ → ℕ
elapsed now then' = (now + 2 ^ 64 - then') % 2 ^ 64

unfoldable pub due : SecondaryCache → ℕ → ℕ → Bool
due c id frame_no = elim (find id c.entries) [
  | none ↦ true
  | some e ↦ leb c.params.infer_interval (elapsed frame_no e.last_infer)
]

unfoldable pub store : SecondaryCache → ℕ → ClassResult → ℕ → SecondaryCache
store c id result frame_no = record c {
  entries =
      assign id (record { result = result; last_infer = frame_no; last_seen = frame_no }) c.entries;
}

unfoldable pub lookup : SecondaryCache → ℕ → ℕ → Option ClassResult × SecondaryCache
lookup c id frame_no = elim (find id c.entries) [
  | none ↦ (none, c)
  | some e ↦ (
    some e.result,
    record c { entries = assign id (record e { last_seen = frame_no }) c.entries },
  )
]

abbrev pub expire_entries : ℕ → ℕ → Entries → Entries
expire_entries max_age frame_no [] = []
expire_entries max_age frame_no ((k, e) ∷ m) =
    let rest = expire_entries max_age frame_no m in
    if ltb max_age (elapsed frame_no e.last_seen) then rest else (k, e) ∷ rest

unfoldable pub expire : SecondaryCache → ℕ → SecondaryCache
expire c frame_no = record c { entries = expire_entries c.params.max_age frame_no c.entries }

unfoldable pub reset : SecondaryCache → SecondaryCache
reset c = record c { entries = [] }

unfoldable pub size : SecondaryCache → ℕ
size c = length c.entries
