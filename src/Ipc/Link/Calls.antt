-- ===== src/Ipc/Link/Calls.antt =====
-- One call of create on the books of the counters, when nothing else happens during it.
use native.Mathlib.Decide.{dec_lt}
use gst_nvmm_cpp.Common.{
  ℕ, zero, suc, ◌+◌, ◌≤◌, ◌≡◌, refl, ◌∙◌, inl, inr, List, [], ◌∷◌, none, some, Bool, true, false,
  set, length, length-set, arith, ◌==◌, leb, ltb, Bool-cases, Option-cases, ◌&&◌,
}
use gst_nvmm_cpp.Common.Int.{ℤ, pos, is_negative, inc32}
use gst_nvmm_cpp.Ipc.Protocol.{Segment, ShmHeader, pool_capacity, shm_magic}
use gst_nvmm_cpp.Ipc.Sink.Render.{flow_ok, flow_error, flow_flushing, flow_eos, ref_count, set_refs}
use gst_nvmm_cpp.Ipc.AppSrc.State.{AppSrc, RefSlot}
use gst_nvmm_cpp.Ipc.AppSrc.Create.{
  Around, Waited, arrived, flushed, timed_out, wait_frame, acquire, rotate, deliver, create_frame,
  create, Answer, set_pad_caps,
}
use gst_nvmm_cpp.Ipc.Link.Accounts.{rotate-Accounts, rotate-exact}
use gst_nvmm_cpp.Ipc.Link.Starvation.{value-Unlocked}
use gst_nvmm_cpp.Ipc.Link.World.{alone, Books}

nonneg-beyond : (refs : List ℤ) (i : ℕ) → length refs ≤ i → ref_count refs i ≡ pos 0
nonneg-beyond [] i h = refl
nonneg-beyond (x ∷ refs) zero h = absurd (omega arith)
nonneg-beyond (x ∷ refs) (suc i) h = nonneg-beyond refs i (omega arith)

pub nonneg :
    (ring : List RefSlot) (head : ℕ) (refs : List ℤ) (i : ℕ)
    → Books ring head refs
    → is_negative (ref_count refs i) ≡ false
nonneg ring head refs i b = elim (dec_lt i pool_capacity) [
  | yes h ↦ rw (value-Unlocked ring refs i b.accounts b.unlocked h)
  | no h ↦ rw (nonneg-beyond refs i (omega (arith, b.accounts.width)))
]

pub wait_frame-alone :
    (flushing : ℕ → Bool) (last k i : ℕ) (seg : Segment)
    → (wait_frame (alone flushing) last k i seg).1 ≡ seg
unfolding wait_frame
wait_frame-alone flushing last zero i seg = ground arith
wait_frame-alone flushing last (suc k) i seg =
    ground (arith, wait_frame-alone flushing last k (i + 1) seg)

abbrev pub taken_seg : ℕ → Segment → Segment
taken_seg idx seg =
    set_refs (set seg.header.ref_counts idx (inc32 (ref_count seg.header.ref_counts idx))) seg

pub acquire_free :
    (around : Around) (k i idx : ℕ) (seg : Segment)
    → is_negative (ref_count seg.header.ref_counts idx) ≡ false
    → acquire around k i idx seg ≡ (some idx, taken_seg idx seg)
unfolding acquire
acquire_free around zero i idx seg e = ground arith
acquire_free around (suc k) i idx seg e = ground arith

pub rotate-Books :
    (idx : ℕ) (s : AppSrc) (seg : Segment)
    → Books s.release_ring s.ring_head seg.header.ref_counts
    → let (s', seg') = rotate idx s (taken_seg idx seg) in
      Books s'.release_ring s'.ring_head seg'.header.ref_counts
unfolding rotate
rotate-Books idx s seg b = record {
  full = length-set s.release_ring s.ring_head _ ∙ b.full;
  inside = omega arith;
  accounts =
      rotate-Accounts s.release_ring s.ring_head idx seg.header.ref_counts b.full b.inside free
        b.accounts;
  unlocked = λ i h e. ground (
    arith,
    e,
    rotate-exact s.release_ring s.ring_head idx seg.header.ref_counts b.full b.inside free
        b.accounts i h
        (value-Unlocked s.release_ring seg.header.ref_counts i b.accounts b.unlocked h),
  );
}
  where
    free : is_negative (ref_count seg.header.ref_counts idx) ≡ false
    free = nonneg s.release_ring s.ring_head seg.header.ref_counts idx b

pub capped-Books :
    (h : ShmHeader) (s : AppSrc) (refs : List ℤ)
    → Books s.release_ring s.ring_head refs
    → Books (set_pad_caps h s).release_ring (set_pad_caps h s).ring_head refs
capped-Books h s refs b = elim (Option-cases s.caps) [
  | inr (c, e) ↦ rw e b
  | inl e ↦
      rw e (elim (Bool-cases (ltb 0 h.width && ltb 0 h.height)) [ inl q ↦ rw q b | inr q ↦ rw q b ])
]

abbrev BooksOf : Answer → Type 0
BooksOf a = Books a.2.release_ring a.2.ring_head a.3.header.ref_counts

-- `create` with slot `idx` at hand.
abbrev pub served : ℕ → AppSrc → Segment → Answer
served idx s seg = let (buffer, t, seg') = deliver idx s seg in (flow_ok, buffer, t, seg')

pub create_frame_ok :
    (around : Around) (s : AppSrc) (seg : Segment)
    → (seg.header.magic == shm_magic) ≡ true
    → leb (set_pad_caps seg.header s).pool_size seg.header.write_idx ≡ false
    → is_negative (ref_count seg.header.ref_counts seg.header.write_idx) ≡ false
    → create_frame around s seg
      ≡ served seg.header.write_idx (set_pad_caps seg.header s) (taken_seg seg.header.write_idx seg)
unfolding create_frame
create_frame_ok around s seg e within free =
    ground (arith, acquire_free around 1000 0 seg.header.write_idx seg free)

create_frame_magic :
    (around : Around) (s : AppSrc) (seg : Segment)
    → (seg.header.magic == shm_magic) ≡ false
    → create_frame around s seg ≡ (flow_error, none, s, seg)
unfolding create_frame
create_frame_magic around s seg e = rw e

create_frame_range :
    (around : Around) (s : AppSrc) (seg : Segment)
    → (seg.header.magic == shm_magic) ≡ true
    → leb (set_pad_caps seg.header s).pool_size seg.header.write_idx ≡ true
    → create_frame around s seg ≡ (flow_error, none, set_pad_caps seg.header s, seg)
unfolding create_frame
create_frame_range around s seg e out = rw (e, out)

create_frame-Books :
    (around : Around) (s : AppSrc) (seg : Segment)
    → Books s.release_ring s.ring_head seg.header.ref_counts
    → BooksOf (create_frame around s seg)
unfolding deliver
create_frame-Books around s seg b = elim (Bool-cases (seg.header.magic == shm_magic)) [
  | inr e ↦ rw (create_frame_magic around s seg e) b
  | inl e ↦ elim (Bool-cases (leb (set_pad_caps seg.header s).pool_size seg.header.write_idx)) [
    | inl out ↦
        rw (create_frame_range around s seg e out)
          (capped-Books seg.header s seg.header.ref_counts b)
    | inr within ↦
        rw
          (create_frame_ok around s seg e within
            (nonneg s.release_ring s.ring_head seg.header.ref_counts seg.header.write_idx b))
          (rotate-Books seg.header.write_idx (set_pad_caps seg.header s) seg
            (capped-Books seg.header s seg.header.ref_counts b))
  ]
]

-- `create` after its wait.
abbrev pub after_wait : Around → AppSrc → Waited × Segment → Answer
after_wait around s x = elim x.0 [
  | arrived ↦ create_frame around s x.1
  | flushed ↦ (flow_flushing, none, s, x.1)
  | timed_out ↦ (flow_eos, none, s, x.1)
]

after_wait-Books :
    (around : Around) (s : AppSrc) (seg : Segment) (x : Waited × Segment)
    → x.1 ≡ seg
    → Books s.release_ring s.ring_head seg.header.ref_counts
    → BooksOf (after_wait around s x)
after_wait-Books around s seg (arrived, seg') e b = rw e (create_frame-Books around s seg b)
after_wait-Books around s seg (flushed, seg') e b = rw e b
after_wait-Books around s seg (timed_out, seg') e b = rw e b

pub create_mapped :
    (around : Around) (s : AppSrc) (seg : Segment) (p : ℕ)
    → s.shm_ptr ≡ some p
    → create around s seg ≡ after_wait around s (wait_frame around s.last_frame_number 2000 0 seg)
unfolding create
create_mapped around s seg p e = simp (e, create)

create_unmapped :
    (around : Around) (s : AppSrc) (seg : Segment)
    → s.shm_ptr ≡ none
    → create around s seg ≡ (flow_error, none, s, seg)
unfolding create
create_unmapped around s seg e = simp (e, create)

pub create-Books :
    (flushing : ℕ → Bool) (s : AppSrc) (seg : Segment)
    → Books s.release_ring s.ring_head seg.header.ref_counts
    → BooksOf (create (alone flushing) s seg)
create-Books flushing s seg b = elim (Option-cases s.shm_ptr) [
  | inl e ↦ rw (create_unmapped (alone flushing) s seg e) b
  | inr (p, e) ↦ rw (create_mapped (alone flushing) s seg p e) (
      after_wait-Books (alone flushing) s seg
        (wait_frame (alone flushing) s.last_frame_number 2000 0 seg)
        (wait_frame-alone flushing s.last_frame_number 2000 0 seg) b)
]
