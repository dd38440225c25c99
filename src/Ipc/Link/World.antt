-- ===== src/Ipc/Link/World.antt =====
-- A producer and one consumer on a segment, one call after the other (render and
-- create).
use gst_nvmm_cpp.Common.{
  ℕ, ◌≤◌, ◌<◌, ◌≡◌, ◌≢◌, ap, ◌∙◌, sym, inl, inr, List, some, Bool, true, false, set, length,
  length-set, arith, if◌then◌else◌, ◌==◌, subst, ◌↔◌, ==_iff, Bool-cases, replicate,
  length-replicate, get_or-replicate,
}
use gst_nvmm_cpp.Common.Int.{ℤ, pos, negsuc}
use gst_nvmm_cpp.Ipc.Protocol.{Segment, pool_capacity, min_pool_size}
use gst_nvmm_cpp.Ipc.Sink.State.{Sink}
use gst_nvmm_cpp.Ipc.Sink.Render.{flow_error, Frame, ref_count, scan, render, render_into, set_refs}
use gst_nvmm_cpp.Ipc.AppSrc.State.{AppSrc, RefSlot, release_delay, no_ref}
use gst_nvmm_cpp.Ipc.AppSrc.Create.{Around, create}
use gst_nvmm_cpp.Ipc.AppSrc.Ring.{held, held-replicate}
use gst_nvmm_cpp.Ipc.Link.Accounts.{Accounts, SlotOk, ref_count-set}
use gst_nvmm_cpp.Ipc.Link.Starvation.{Unlocked}

pub record World : Type 0 where
  pub sink : Sink
  pub src : AppSrc
  pub seg : Segment

-- Nothing else happens during a call.
abbrev pub alone : (ℕ → Bool) → Around
alone flushing = record { others = λ k seg. seg; flushing = flushing; contenders = λ k seg. seg }

abbrev pub after_render : Bool → Frame → World → World
after_render deepstream frame w =
    let (flow, s, seg) = render deepstream frame w.sink w.seg in record w { sink = s; seg = seg }

abbrev pub after_create : Around → World → World
after_create around w =
    let (flow, buffer, s, seg) = create around w.src w.seg in record w { src = s; seg = seg }

pub data Step : World → World → Type 0 where
  rendered :
      (w : World) (deepstream : Bool) (frame : Frame) → Step w (after_render deepstream frame w)
  created : (w : World) (flushing : ℕ → Bool) → Step w (after_create (alone flushing) w)

pub data Reach (w : World) : World → Type 0 where
  here : Reach w w
  next : {u v : World} → Reach w u → Step u v → Reach w v

pub record Books (ring : List RefSlot) (head : ℕ) (refs : List ℤ) : Type 0 where
  pub full : length ring ≡ release_delay
  pub inside : head < release_delay
  pub accounts : Accounts ring refs
  pub unlocked : Unlocked refs

pub record Ready (s : Sink) : Type 0 where
  pub pointer : ℕ
  pub mapped : s.shm_ptr ≡ some pointer
  pub allocated : s.pool_allocated ≡ true
  pub low : min_pool_size ≤ s.pool_size
  pub high : s.pool_size ≤ pool_capacity

-- Between two calls.
pub record LinkInv (w : World) : Type 0 where
  pub ready : Ready w.sink
  pub books : Books w.src.release_ring w.src.ring_head w.seg.header.ref_counts

pub render_found :
    (deepstream : Bool) (frame : Frame) (s : Sink) (seg : Segment) (t : ℕ) (refs : List ℤ)
    → Ready s
    → frame.nvmm ≡ true
    → scan s.write_idx s.pool_size s.pool_size 0 seg.header.ref_counts ≡ (some t, refs)
    → render deepstream frame s seg ≡ render_into deepstream frame t s (set_refs refs seg)
unfolding render
render_found deepstream frame s seg t refs r nv e = ground (arith, r.mapped, r.allocated, nv, e)

pub render_other :
    (deepstream : Bool) (frame : Frame) (s : Sink) (seg : Segment)
    → frame.nvmm ≡ false
    → render deepstream frame s seg ≡ (flow_error, s, seg)
unfolding render
render_other deepstream frame s seg nv = ground arith

pub refs-render_into :
    (deepstream : Bool) (frame : Frame) (t : ℕ) (s : Sink) (seg : Segment)
    → (render_into deepstream frame t s seg).2.header.ref_counts
      ≡ set seg.header.ref_counts t (pos 0)
unfolding render_into
refs-render_into deepstream frame t s seg = ground arith

pub render_into-Ready :
    (deepstream : Bool) (frame : Frame) (t : ℕ) (s : Sink) (seg : Segment)
    → Ready s
    → Ready (render_into deepstream frame t s seg).1
unfolding render_into
render_into-Ready deepstream frame t s seg r = ground arith

-- A slot that was locked and released again holds what it held.
pub relock-Books :
    (ring : List RefSlot) (head t : ℕ) (refs : List ℤ)
    → held t ring ≡ 0
    → Books ring head refs
    → Books ring head (set (set refs t (negsuc 0)) t (pos 0))
relock-Books ring head t refs z b = record {
  full = b.full;
  inside = b.inside;
  accounts = record {
    width =
        length-set (set refs t (negsuc 0)) t (pos 0)
        ∙ (length-set refs t (negsuc 0) ∙ b.accounts.width);
    slots = λ i h. rw (twice i h) (released i h (==_iff t i));
  };
  unlocked = λ i h e. unlocked' i h (==_iff t i) (sym (twice i h) ∙ e);
}
  where
    value : (i : ℕ) → ℤ
    value i = if t == i then pos 0 else ref_count refs i

    twice :
        (i : ℕ) → i < pool_capacity → ref_count (set (set refs t (negsuc 0)) t (pos 0)) i ≡ value i
    twice i h =
        rw
          (
            ref_count-set (set refs t (negsuc 0)) t i (pos 0)
                (omega (arith, b.accounts.width, length-set refs t (negsuc 0))),
            ref_count-set refs t i (negsuc 0) (omega (arith, b.accounts.width)),
          )
          (ground arith)

    released :
        (i : ℕ) → i < pool_capacity → ((t == i) ≡ true) ↔ (t ≡ i) → SlotOk (held i ring) (value i)
    released i h f = elim (Bool-cases (t == i)) [
      | inl e ↦ rw e (inl (ap pos (sym (subst (λ j. held j ring ≡ 0) (f.0 e) z))))
      | inr e ↦ rw e (b.accounts.slots i h)
    ]

    unlocked' : (i : ℕ) → i < pool_capacity → ((t == i) ≡ true) ↔ (t ≡ i) → value i ≢ negsuc 0
    unlocked' i h f = elim (Bool-cases (t == i)) [
      | inl e ↦ rw e (λ q. cc)
      | inr e ↦ rw e (b.unlocked i h)
    ]

-- The books of a fresh segment and a fresh reader balance.
pub fresh-Books : Books (replicate release_delay no_ref) 0 (replicate pool_capacity (pos 0))
fresh-Books = record {
  full = length-replicate release_delay no_ref;
  inside = omega arith;
  accounts = record {
    width = length-replicate pool_capacity (pos 0);
    slots = λ i h.
        inl (
          get_or-replicate pool_capacity i (pos 0) ∙ ap pos (sym (held-replicate i release_delay)));
  };
  unlocked = λ i h e. empty_slot (sym (get_or-replicate pool_capacity i (pos 0)) ∙ e);
}
  where
    empty_slot : pos 0 ≢ negsuc 0
    empty_slot e = cc
