-- ===== src/Ipc/Race/Moves.antt =====
-- What one access does to one slot's counter and to the references on the slot.
use native.Mathlib.Nat.{mod-lt}
use gst_nvmm_cpp.Common.{
  ℕ, zero, suc, ◌+◌, ◌%◌, ◌<◌, ◌≡◌, refl, ap, ◌∙◌, sym, ◌⊎◌, inl, inr, List, some, Bool, true,
  false, set, get_or, length, length-set, ◌==◌, ==_iff, Bool-cases, if◌then◌else◌, arith,
}
use gst_nvmm_cpp.Common.Int.{ℤ, pos, negsuc, inc32, dec32, eq_ℤ}
use gst_nvmm_cpp.Ipc.Protocol.{Segment}
use gst_nvmm_cpp.Ipc.Sink.State.{Sink}
use gst_nvmm_cpp.Ipc.Sink.Render.{Frame, ref_count, try_lock, write_meta, publish}
use gst_nvmm_cpp.Ipc.AppSrc.State.{AppSrc, RefSlot, no_ref, release_delay}
use gst_nvmm_cpp.Ipc.AppSrc.Lifecycle.{drop_ref, cleared}
use gst_nvmm_cpp.Ipc.AppSrc.Create.{rotate}
use gst_nvmm_cpp.Ipc.AppSrc.Ring.{weight, held, held-set, weight-le-one}
use gst_nvmm_cpp.Ipc.Sink.Scan.{eq_ℤ-zero}
use gst_nvmm_cpp.Ipc.Link.Accounts.{ref_count-set, ref_count-drop_ref, length-drop_ref}
use gst_nvmm_cpp.Ipc.Race.{
  Read, Write, ReaderAt, WriterAt, counters, choose, load, retry, give_up, swap, outrun, keep, halt,
  give_back, halted, enter, lock, busy, all_busy, copy_failed, copied, describe, announce, idle,
  searching, copying, unlocked, described,
}
use gst_nvmm_cpp.Ipc.Race.Count.{holds, RingOk}

-- A reader's references on a slot and the slot's counter, before and after.
pub data Moved (h : ℕ) (v : ℤ) : ℕ → ℤ → Type 0 where
  stayed : Moved h v h v
  joined : (n : ℕ) → v ≡ pos n → Moved h v (h + 1) (inc32 (pos n))
  left : (h' : ℕ) → h ≡ h' + 1 → Moved h v h' (dec32 v)

stayed_by : {h h' : ℕ} {v v' : ℤ} → h' ≡ h → v' ≡ v → Moved h v h' v'
stayed_by e f = rw (e, f) stayed

add_zero : (n : ℕ) → n + 0 ≡ n
add_zero n = omega arith

weight-cleared : (i : ℕ) (r : RefSlot) → weight i (cleared r) ≡ 0
weight-cleared i r = ground arith

-- A reference that is given back: the ring's entry is dropped or not on slot `i`.
dropped :
    (i h h' : ℕ) (old : RefSlot) (refs : List ℤ)
    → i < length refs
    → h' + weight i old ≡ h
    → Moved h (ref_count refs i) h' (ref_count (drop_ref old refs) i)
dropped i h h' old refs lt e = rw (ref_count-drop_ref old refs i lt) (by (weight i old) refl)
  where
    by :
        (w : ℕ)
        → weight i old ≡ w
        → Moved h
            (ref_count refs i)
            h'
            (if w == 1 then dec32 (ref_count refs i) else ref_count refs i)
    by zero z = stayed_by (omega arith) refl
    by (suc zero) z = left h' (omega arith)
    by (suc (suc w)) z = absurd (omega (arith, weight-le-one i old))

swapped :
    (idx i n h : ℕ) (refs : List ℤ)
    → i < length refs
    → ref_count refs idx ≡ pos n
    → Moved h
        (ref_count refs i)
        (h + (if idx == i then 1 else 0))
        (ref_count (set refs idx (inc32 (pos n))) i)
swapped idx i n h refs lt e =
    rw (ref_count-set refs idx i (inc32 (pos n)) lt) (by (Bool-cases (idx == i)))
  where
    by :
        ((idx == i) ≡ true) ⊎ ((idx == i) ≡ false)
        → Moved h
            (ref_count refs i)
            (h + (if idx == i then 1 else 0))
            (if idx == i then inc32 (pos n) else ref_count refs i)
    by (inl t) = rw t (joined n (ap (ref_count refs) (sym ((==_iff idx i).0 t)) ∙ e))
    by (inr f) = rw f (stayed_by (omega arith) refl)

pub Read-Moved :
    (i : ℕ) {r c : AppSrc} {seg g : Segment} {p q : ReaderAt}
    → Read r seg p c g q
    → i < length (counters seg)
    → RingOk (record { src = r; at = p })
    → Moved
        (holds i (record { src = r; at = p }))
        (ref_count (counters seg) i)
        (holds i (record { src = c; at = q }))
        (ref_count (counters g) i)
unfolding rotate
Read-Moved i (choose h) lt ok = stayed
Read-Moved i (load idx a) lt ok = stayed
Read-Moved i (retry idx a n h) lt ok = stayed
Read-Moved i (give_up idx a n h) lt ok = stayed
Read-Moved i {r = r} {seg = seg} (swap idx a n e) lt ok =
    rw (add_zero (held i r.release_ring))
      (swapped idx i n (held i r.release_ring) (counters seg) lt e)
Read-Moved i (outrun idx a n ne) lt ok = stayed
Read-Moved i {r = r} {seg = seg} (keep idx) lt ok =
    dropped i _ _ (get_or r.release_ring r.ring_head no_ref) (counters seg) lt (
      omega (
        arith,
        held-set i r.ring_head (record { ptr = some idx; active = true }) r.release_ring
            (omega (arith, ok.full, ok.inside)),
      ))
Read-Moved i halt lt ok = stayed
Read-Moved i {r = r} {seg = seg} (give_back k h) lt ok =
    dropped i _ _ (get_or r.release_ring k no_ref) (counters seg) lt (
      omega (
        arith,
        held-set i k (cleared (get_or r.release_ring k no_ref)) r.release_ring
            (omega (arith, ok.full, h)),
        weight-cleared i (get_or r.release_ring k no_ref),
      ))
Read-Moved i (halted k h) lt ok = stayed

pub length-Read :
    {r c : AppSrc} {seg g : Segment} {p q : ReaderAt}
    → Read r seg p c g q
    → length (counters g) ≡ length (counters seg)
unfolding rotate
length-Read (choose h) = refl
length-Read (load idx a) = refl
length-Read (retry idx a n h) = refl
length-Read (give_up idx a n h) = refl
length-Read {seg = seg} (swap idx a n e) = length-set (counters seg) idx _
length-Read (outrun idx a n ne) = refl
length-Read {r = r} {seg = seg} (keep idx) = length-drop_ref _ (counters seg)
length-Read halt = refl
length-Read {seg = seg} (give_back k h) = length-drop_ref _ (counters seg)
length-Read (halted k h) = refl

pub Read-RingOk :
    {r c : AppSrc} {seg g : Segment} {p q : ReaderAt}
    → Read r seg p c g q
    → RingOk (record { src = r; at = p })
    → RingOk (record { src = c; at = q })
unfolding rotate
Read-RingOk (choose h) ok = record { full = ok.full; inside = ok.inside }
Read-RingOk (load idx a) ok = record { full = ok.full; inside = ok.inside }
Read-RingOk (retry idx a n h) ok = record { full = ok.full; inside = ok.inside }
Read-RingOk (give_up idx a n h) ok = record { full = ok.full; inside = ok.inside }
Read-RingOk (swap idx a n e) ok = record { full = ok.full; inside = ok.inside }
Read-RingOk (outrun idx a n ne) ok = record { full = ok.full; inside = ok.inside }
Read-RingOk {r = r} (keep idx) ok = record {
  full = length-set r.release_ring r.ring_head _ ∙ ok.full;
  inside = mod-lt (r.ring_head + 1) {m = release_delay} (omega arith);
}
Read-RingOk halt ok = record { full = ok.full; inside = ok.inside }
Read-RingOk {r = r} (give_back k h) ok = record {
  full = length-set r.release_ring k _ ∙ ok.full;
  inside = ok.inside;
}
Read-RingOk (halted k h) ok = record { full = ok.full; inside = ok.inside }

-- Whether `render` is copying into slot `i`.
abbrev pub writes : ℕ → WriterAt → Bool
writes i idle = false
writes i (searching f k) = false
writes i (copying f t) = t == i
writes i (unlocked f t) = false
writes i (described f t) = false

-- Whether `render` copies into a slot and the slot's counter, before and after.
pub data Turned (b : Bool) (v : ℤ) : Bool → ℤ → Type 0 where
  kept : Turned b v b v
  locked : b ≡ false → v ≡ pos 0 → Turned b v true (negsuc 0)
  freed : b ≡ true → Turned b v false (pos 0)

-- What a swap leaves, by what it answers.
abbrev tried : Bool → List ℤ → ℕ → Bool × List ℤ
tried b refs t = if b then (true, set refs t (negsuc 0)) else (false, refs)

-- A swap that succeeds found 0 and leaves -1.
try_lock-true :
    (refs refs' : List ℤ) (t : ℕ)
    → try_lock refs t ≡ (true, refs')
    → (ref_count refs t ≡ pos 0) × (set refs t (negsuc 0) ≡ refs')
unfolding try_lock
try_lock-true refs refs' t e = by (eq_ℤ (ref_count refs t) (pos 0)) refl e
  where
    by :
        (b : Bool)
        → eq_ℤ (ref_count refs t) (pos 0) ≡ b
        → tried b refs t ≡ (true, refs')
        → (ref_count refs t ≡ pos 0) × (set refs t (negsuc 0) ≡ refs')
    by true f q = (eq_ℤ-zero (ref_count refs t) f, ap (λ x. x.1) q)
    by false f q = absurd (cc (ap (λ x. x.0) q))

try_lock-false : (refs refs' : List ℤ) (t : ℕ) → try_lock refs t ≡ (false, refs') → refs ≡ refs'
unfolding try_lock
try_lock-false refs refs' t e = by (eq_ℤ (ref_count refs t) (pos 0)) e
  where
    by : (b : Bool) → tried b refs t ≡ (false, refs') → refs ≡ refs'
    by true q = absurd (cc (ap (λ x. x.0) q))
    by false q = ap (λ x. x.1) q

locked_slot :
    (refs : List ℤ) (t i : ℕ)
    → i < length refs
    → ref_count refs t ≡ pos 0
    → Turned false (ref_count refs i) (t == i) (ref_count (set refs t (negsuc 0)) i)
locked_slot refs t i lt z = rw (ref_count-set refs t i (negsuc 0) lt) (by (t == i) refl)
  where
    by :
        (b : Bool)
        → (t == i) ≡ b
        → Turned false (ref_count refs i) b (if b then negsuc 0 else ref_count refs i)
    by true e = locked refl (ap (ref_count refs) (sym ((==_iff t i).0 e)) ∙ z)
    by false e = kept

unlocked_slot :
    (refs : List ℤ) (t i : ℕ)
    → i < length refs
    → Turned (t == i) (ref_count refs i) false (ref_count (set refs t (pos 0)) i)
unlocked_slot refs t i lt = rw (ref_count-set refs t i (pos 0) lt) (by (t == i) refl)
  where
    by :
        (b : Bool)
        → (t == i) ≡ b
        → Turned b (ref_count refs i) false (if b then pos 0 else ref_count refs i)
    by true e = freed refl
    by false e = kept

counters-write_meta :
    (deepstream : Bool) (s : Sink) (t : ℕ) (f : Frame) (seg : Segment)
    → counters (write_meta deepstream s t f seg) ≡ counters seg
unfolding write_meta
counters-write_meta d s t f seg = ground arith

pub Write-Turned :
    (i : ℕ) {s k : Sink} {seg g : Segment} {w u : WriterAt}
    → Write s seg w k g u
    → i < length (counters seg)
    → Turned (writes i w) (ref_count (counters seg) i) (writes i u) (ref_count (counters g) i)
unfolding write_meta publish
Write-Turned i (enter f p e a nv) lt = kept
Write-Turned i {s = s} {seg = seg} (lock f j refs h e) lt =
    let found = try_lock-true (counters seg) refs ((s.write_idx + 1 + j) % s.pool_size) e in
    rw (← found.1) (locked_slot (counters seg) ((s.write_idx + 1 + j) % s.pool_size) i lt found.0)
Write-Turned i {s = s} {seg = seg} (busy f j refs h e) lt =
    rw (← try_lock-false (counters seg) refs ((s.write_idx + 1 + j) % s.pool_size) e) kept
Write-Turned i (all_busy f j h) lt = kept
Write-Turned i {seg = seg} (copy_failed f t h) lt = unlocked_slot (counters seg) t i lt
Write-Turned i {seg = seg} (copied f t h) lt = unlocked_slot (counters seg) t i lt
Write-Turned i {s = s} {seg = seg} (describe f t d) lt = rw (counters-write_meta d s t f seg) kept
Write-Turned i (announce f t) lt = kept

pub length-Write :
    {s k : Sink} {seg g : Segment} {w u : WriterAt}
    → Write s seg w k g u
    → length (counters g) ≡ length (counters seg)
unfolding publish
length-Write (enter f p e a nv) = refl
length-Write {s = s} {seg = seg} (lock f j refs h e) =
    let found = try_lock-true (counters seg) refs ((s.write_idx + 1 + j) % s.pool_size) e in
    rw (← found.1) (length-set (counters seg) _ _)
length-Write {s = s} {seg = seg} (busy f j refs h e) =
    rw (← try_lock-false (counters seg) refs ((s.write_idx + 1 + j) % s.pool_size) e) refl
length-Write (all_busy f j h) = refl
length-Write {seg = seg} (copy_failed f t h) = length-set (counters seg) t _
length-Write {seg = seg} (copied f t h) = length-set (counters seg) t _
length-Write {s = s} {seg = seg} (describe f t d) = ap length (counters-write_meta d s t f seg)
length-Write (announce f t) = refl
