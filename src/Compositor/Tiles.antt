-- ===== src/Compositor/Tiles.antt =====
-- gst/nvmmcompositor/gstnvmmcompositor.cpp: what aggregate pushes, pad by pad.
use gst_nvmm_cpp.Common.{
  ℕ, ◌≡◌, refl, ap, ◌∙◌, sym, List, [], ◌∷◌, ◌++◌, Option, none, some, Bool, true, false, ◌&&◌,
  ◌||◌, map, if◌then◌else◌,
}
use gst_nvmm_cpp.Surface.Transform.{TransformRect}
use gst_nvmm_cpp.Compositor.{
  CompositorPad, Waiting, SinkPad, Compositor, dst_rect, Round, or_else, compose, compose_pad,
  compose_all, Aggregated, eos, skipped, pushed, end_of, aggregate,
}

-- The pad is at its end and has no buffer left.
abbrev pub ended : SinkPad → Bool
ended p = elim p.buffer [ none ↦ p.eos | some b ↦ false ]

abbrev pub visible : SinkPad → Bool
visible p = elim p.buffer [ none ↦ false | some b ↦ b.surface ]

abbrev pub pts_of : SinkPad → Option ℕ
pts_of p = elim p.buffer [ none ↦ none | some b ↦ if b.surface then b.pts else none ]

abbrev pub all_ended : List SinkPad → Bool
all_ended [] = true
all_ended (p ∷ ps) = ended p && all_ended ps

abbrev pub any_visible : List SinkPad → Bool
any_visible [] = false
any_visible (p ∷ ps) = visible p || any_visible ps

abbrev pub first_pts : List SinkPad → Option ℕ
first_pts [] = none
first_pts (p ∷ ps) = or_else (pts_of p) (first_pts ps)

abbrev pub tiles_of : Compositor → List SinkPad → List TransformRect
tiles_of s [] = []
tiles_of s (p ∷ ps) =
    let rest = tiles_of s ps in if visible p then dst_rect s p.pad ∷ rest else rest

append_cons : (a b : List TransformRect) (x : TransformRect) → (a ++ (x ∷ [])) ++ b ≡ a ++ (x ∷ b)
append_cons [] b x = refl
append_cons (y ∷ a) b x = ap (◌∷◌ y) (append_cons a b x)

append_nil : (a : List TransformRect) → a ++ [] ≡ a
append_nil [] = refl
append_nil (y ∷ a) = ap (◌∷◌ y) (append_nil a)

or_none : (a : Bool) → a ≡ (a || false)
or_none true = refl
or_none false = refl

or_true : (a : Bool) → true ≡ (a || true)
or_true true = refl
or_true false = refl

and_true : (a : Bool) → a ≡ (a && true)
and_true true = refl
and_true false = refl

and_false : (a : Bool) → false ≡ (a && false)
and_false true = refl
and_false false = refl

else_none : (a : Option ℕ) → a ≡ or_else a none
else_none none = refl
else_none (some x) = refl

else_else : (a b c : Option ℕ) → or_else (or_else a b) c ≡ or_else a (or_else b c)
else_else none b c = refl
else_else (some x) b c = refl

-- The values of the loop, as they follow from those before and the pads.
record Values (s : Compositor) (r : Round) (ps : List SinkPad) (out : Round) : Type 0 where
  any : out.any ≡ (r.any || any_visible ps)
  all_eos : out.all_eos ≡ (r.all_eos && all_ended ps)
  pts : out.pts ≡ or_else r.pts (first_pts ps)
  tiles : out.tiles ≡ r.tiles ++ tiles_of s ps

-- One pad before others.
first_pad :
    (s : Compositor) (p : SinkPad) (ps : List SinkPad) (r out : Round)
    → Values s (compose_pad s p r) ps out
    → Values s r (p ∷ ps) out
unfolding compose_pad compose
first_pad s p ps r out v = by p.pad p.buffer p.eos v
  where
    shown :
        (c : CompositorPad) (surface : Bool) (t : Option ℕ) (e : Bool)
        → let b : Waiting = record { surface = surface; pts = t } in
          Values s (compose_pad s (record { pad = c; buffer = some b; eos = e }) r) ps out
          → Values s r (record { pad = c; buffer = some b; eos = e } ∷ ps) out
    shown c true t e u = record {
      any = u.any ∙ or_true r.any;
      all_eos = u.all_eos ∙ and_false r.all_eos;
      pts = u.pts ∙ else_else r.pts t (first_pts ps);
      tiles = u.tiles ∙ append_cons r.tiles (tiles_of s ps) (dst_rect s c);
    }
    shown c false t e u = record {
      any = u.any;
      all_eos = u.all_eos ∙ and_false r.all_eos;
      pts = u.pts;
      tiles = u.tiles;
    }

    by :
        (c : CompositorPad) (b : Option Waiting) (e : Bool)
        → Values s (compose_pad s (record { pad = c; buffer = b; eos = e }) r) ps out
        → Values s r (record { pad = c; buffer = b; eos = e } ∷ ps) out
    by c none true u = record { any = u.any; all_eos = u.all_eos; pts = u.pts; tiles = u.tiles }
    by c none false u = record {
      any = u.any;
      all_eos = u.all_eos ∙ and_false r.all_eos;
      pts = u.pts;
      tiles = u.tiles;
    }
    by c (some b) e u = shown c b.surface b.pts e u

compose_all-Values :
    (s : Compositor) (ps : List SinkPad) (r : Round) → Values s r ps (compose_all s ps r).0
unfolding compose_all
compose_all-Values s [] r = record {
  any = or_none r.any;
  all_eos = and_true r.all_eos;
  pts = else_none r.pts;
  tiles = sym (append_nil r.tiles);
}
compose_all-Values s (p ∷ ps) r = first_pad s p ps r _ (compose_all-Values s ps (compose_pad s p r))

-- A pad with its buffer taken.
abbrev pub emptied : SinkPad → SinkPad
emptied p = record p { buffer = none }

compose_all-emptied :
    (s : Compositor) (ps : List SinkPad) (r : Round) → (compose_all s ps r).1 ≡ map emptied ps
unfolding compose_all
compose_all-emptied s [] r = refl
compose_all-emptied s (p ∷ ps) r =
    ap (◌∷◌ (emptied p)) (compose_all-emptied s ps (compose_pad s p r))

-- The caps do not matter for the tiles.
same_tiles :
    (s : Compositor) (ps : List SinkPad)
    → tiles_of (record s { src_caps_set = true }) ps ≡ tiles_of s ps
unfolding dst_rect
same_tiles s [] = refl
same_tiles s (p ∷ ps) = rw (same_tiles s ps) refl

-- What aggregate should do with its pads.
abbrev pub expected : Compositor → List SinkPad → Aggregated
expected s pads =
    if all_ended pads
    then eos
    else if any_visible pads
    then pushed (first_pts pads) (tiles_of s pads)
    else skipped

-- With an output buffer, aggregate ends the stream just when every pad is at its end with no buffer
-- left; pushes a buffer just when a pad's buffer has a surface, with the first time stamp of those and one
-- tile for each of them, in the pads' order; and leaves no buffer on any pad.
pub aggregate_lem :
    (pads : List SinkPad) (s : Compositor)
    → let (flow, pads', s') = aggregate true true pads s in
      (flow ≡ expected s pads) × (pads' ≡ map emptied pads)
unfolding aggregate end_of
aggregate_lem pads s =
    let s' : Compositor = record s { src_caps_set = true } in
    let start : Round = record { any = false; all_eos = true; pts = none; tiles = [] } in
    let v = compose_all-Values s' pads start in
    (
      rw (v.all_eos, v.any, v.pts, v.tiles, same_tiles s pads) refl,
      compose_all-emptied s' pads start,
    )
