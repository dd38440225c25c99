-- ===== src/SecondaryInfer/Classify.antt =====
-- gst/nvmmsecondaryinfer/gstnvmmsecondaryinfer.cpp: transform_ip.
use gst_nvmm_cpp.Common.{
  ℕ, zero, suc, ◌+◌, ◌-◌, ◌%◌, ◌^◌, List, [], ◌∷◌, Option, none, some, Bool, true, false, ◌&&◌,
  ◌||◌, not, get_or, take, length, ltb, ◌==◌, if◌then◌else◌,
}
use gst_nvmm_cpp.Common.Int.{pos, negsuc}
use gst_nvmm_cpp.Common.Float.{F32, FloatOps}
use gst_nvmm_cpp.Ipc.Protocol.{DetObject, meta_label_len}
use gst_nvmm_cpp.DetMeta.{BufferMeta}
use gst_nvmm_cpp.Draw.{ClassEntry}
use gst_nvmm_cpp.Gate.Element.{F64, no_object}
use gst_nvmm_cpp.Kalman.{Doubles}
use gst_nvmm_cpp.SecondaryCache.{ClassResult, SecondaryCache, due, store, lookup, expire}
use gst_nvmm_cpp.SecondaryInfer.{Text, SecondaryInfer}

-- A buffer: its surface's width and height, its detections, and the scores of object number `i` and its box
-- in the surface, `none` where preprocessing, inference or the copy fails.
pub record Incoming : Type 0 where
  pub surface : Option (ℕ × ℕ)
  pub det : Option BufferMeta
  pub scores : ℕ → F32 → F32 → F32 → F32 → Option (List F32)

abbrev pub unclassified : ClassEntry
unclassified = record { class_id = negsuc 0; confidence = 0; fresh = 0; label = [] }

abbrev pub copied : Text → Text
copied t = take (meta_label_len - 1) t

-- The entry of a cached result.
abbrev pub entry_of : Option ClassResult → ClassEntry
entry_of none = unclassified
entry_of (some r) = record {
  class_id = r.class_id;
  confidence = r.confidence;
  fresh = 0;
  label = copied r.label;
}

-- lookup, but for an object without a track.
unfoldable pub look : SecondaryCache → ℕ → ℕ → Option ClassResult × SecondaryCache
look c id fno = if id == 0 then (none, c) else lookup c id fno

unfoldable pub keep_result : SecondaryCache → ℕ → ClassEntry → ℕ → SecondaryCache
keep_result c id e fno =
    if id == 0
    then c
    else store c id (record { class_id = e.class_id; confidence = e.confidence; label = e.label })
        fno

abbrev pub is_some {ℓ} : {A : Type ℓ} → Option A → Bool
is_some none = false
is_some (some a) = true

abbrev pub settle :
    Option ClassEntry → ClassEntry → ℕ → ℕ → SecondaryCache → ClassEntry × SecondaryCache
settle none old id fno c = (old, c)
settle (some e) old id fno c = (e, keep_result c id e fno)

-- `exp` is std::exp, and `class_text i` is "class<i>".
module _ (F : FloatOps) (D : Doubles) (exp : F64 → F64) (class_text : ℕ → Text) where
  -- The search of top1: the scores left, the first being number `i`.
  unfoldable pub best_class : List F32 → ℕ → ℕ → F32 → ℕ × F32
  best_class [] i best top = (best, top)
  best_class (v ∷ vs) i best top =
      best_class vs (i + 1) (if F.lt top v then i else best) (if F.lt top v then v else top)

  unfoldable pub sum_exp : List F32 → F32 → F64 → F64
  sum_exp [] top sum = sum
  sum_exp (v ∷ vs) top sum = sum_exp vs top (D.add sum (exp (D.sub (D.widen v) (D.widen top))))

  -- The class with the best score, and its confidence; `activation` is 0 for the softmax.
  unfoldable pub top1 : ℕ → List F32 → ℕ × F32
  top1 activation [] = (0, 0)
  top1 activation (v ∷ vs) =
      let (best, top) = best_class vs 1 0 v in
      (
        best,
        if activation == 0
            then D.narrow (D.div 0x3FF0000000000000 (sum_exp (v ∷ vs) top 0))
            else top,
      )

  unfoldable pub label_of : List Text → ℕ → Text
  label_of labels i = copied (if ltb i (length labels) then get_or labels i [] else class_text i)

  -- What inference says of an object, where it runs and is confident.
  unfoldable pub infer : SecondaryInfer → Option (List F32) → Option ClassEntry
  infer s none = none
  infer s (some v) =
      let (cls, conf) = top1 s.activation v in
      if F.lt conf (D.narrow s.conf_threshold)
      then none
      else some (record {
        class_id = pos cls;
        confidence = conf;
        fresh = 1;
        label = label_of s.labels cls;
      })

  -- One object: number `i`, on a surface that the scales lead to.
  unfoldable pub classify :
      SecondaryInfer
      → Incoming
      → F32
      → F32
      → ℕ
      → ℕ
      → DetObject
      → SecondaryCache
      → ClassEntry × SecondaryCache
  classify s buf sx sy fno i o c =
      let (cached, c') = look c o.tracker_id fno in
      let w = F.mul o.width sx in
      let h = F.mul o.height sy in
      let small = F.lt w (F.of_int s.min_roi) || F.lt h (F.of_int s.min_roi) in
      if small || (is_some cached && not (due c' o.tracker_id fno))
      then (entry_of cached, c')
      else settle (infer s (buf.scores i (F.mul o.left sx) (F.mul o.top sy) w h)) (entry_of cached)
          o.tracker_id fno c'

  -- The loop over `n` objects, the one at hand being number `i`.
  unfoldable pub classify_all :
      SecondaryInfer
      → Incoming
      → F32
      → F32
      → ℕ
      → List DetObject
      → ℕ
      → ℕ
      → SecondaryCache
      → List ClassEntry × SecondaryCache
  classify_all s buf sx sy fno objects i zero c = ([], c)
  classify_all s buf sx sy fno objects i (suc n) c =
      let (e, c') = classify s buf sx sy fno i (get_or objects i no_object) c in
      let (es, c'') = classify_all s buf sx sy fno objects (i + 1) n c' in (e ∷ es, c'')

  abbrev pub scale : ℕ → ℕ → F32
  scale surf infer_size =
      if infer_size == 0 then 0x3F800000 else F.div (F.of_int surf) (F.of_int infer_size)

  -- The rest of transform_ip, with the expired cache; `none` adds no meta.
  unfoldable pub classify_meta :
      Incoming
      → ℕ
      → SecondaryCache
      → SecondaryInfer
      → Option BufferMeta
      → Option (ℕ × ℕ)
      → Option (List ClassEntry) × SecondaryCache
  classify_meta buf fno c s none surface = (none, c)
  classify_meta buf fno c s (some m) none = (none, c)
  classify_meta buf fno c s (some m) (some (w, h)) =
      let sx = scale w m.infer_width in
      let sy = scale h m.infer_height in
      let (es, c') = classify_all s buf sx sy fno m.objects 0 m.num_objects c in
      if m.num_objects == 0 then (none, c) else (some es, c')

  -- gst_nvmm_secondary_infer_transform_ip: the entries of the class meta. Without a cache, which is a null
  -- pointer in the code, nothing is said.
  unfoldable pub transform_ip :
      Incoming → SecondaryInfer → Option (Option (List ClassEntry) × SecondaryInfer)
  transform_ip buf s = elim s.cache [
    | none ↦ none
    | some c ↦
        let (es, c') = classify_meta buf s.frame_no (expire c s.frame_no) s buf.det buf.surface in
        some (es, record s { cache = some c'; frame_no = (s.frame_no + 1) % 2 ^ 64 })
  ]
