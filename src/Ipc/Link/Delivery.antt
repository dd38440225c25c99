-- ===== src/Ipc/Link/Delivery.antt =====
-- What create hands to the pipeline, and when it hands over nothing.
use gst_nvmm_cpp.Common.{
  ℕ, zero, suc, ◌+◌, ◌<◌, ◌≡◌, refl, ◌∙◌, none, some, true, false, get_or, get_or-set_self, arith,
  if◌then◌else◌,
}
use gst_nvmm_cpp.Ipc.Protocol.{Segment, ShmHeader, shm_magic}
use gst_nvmm_cpp.DetMeta.{add_det_meta}
use gst_nvmm_cpp.Ipc.Sink.Render.{flow_ok, flow_eos, blank_meta}
use gst_nvmm_cpp.Ipc.AppSrc.State.{AppSrc, no_ref}
use gst_nvmm_cpp.Ipc.AppSrc.Create.{
  Around, arrived, timed_out, is_new, wait_frame, rotate, deliver, create, set_pad_caps,
}
use gst_nvmm_cpp.Ipc.Link.World.{alone, Books}
use gst_nvmm_cpp.Ipc.Link.Calls.{create_mapped, create_frame_ok, nonneg}

capped_kept :
    (h : ShmHeader) (s : AppSrc)
    → ((set_pad_caps h s).pool_size ≡ s.pool_size)
      × ((set_pad_caps h s).imported_surfaces ≡ s.imported_surfaces)
      × ((set_pad_caps h s).meta_available ≡ s.meta_available)
      × ((set_pad_caps h s).release_ring ≡ s.release_ring)
      × ((set_pad_caps h s).ring_head ≡ s.ring_head)
      × ((set_pad_caps h s).shm_ptr ≡ s.shm_ptr)
capped_kept h s = ground arith

wait_frame_new :
    (around : Around) (last k i : ℕ) (seg : Segment)
    → is_new last seg.header ≡ true
    → wait_frame around last k i seg ≡ (arrived, seg)
unfolding wait_frame
wait_frame_new around last zero i seg e = ground arith
wait_frame_new around last (suc k) i seg e = ground arith

wait_frame_old :
    (last k i : ℕ) (seg : Segment)
    → is_new last seg.header ≡ false
    → wait_frame (alone (λ j. false)) last k i seg ≡ (timed_out, seg)
unfolding wait_frame
wait_frame_old last zero i seg e = ground arith
wait_frame_old last (suc k) i seg e = ground (arith, wait_frame_old last k (i + 1) seg)

-- A reader on a segment whose books balance, with a new frame announced in one of its slots, gets
-- that slot's surface, the frame's time stamp and, if it imports metadata, the slot's record. It
-- remembers the frame's number, stays mapped, and its newest reference is on that slot.
pub create_delivers :
    (around : Around) (s : AppSrc) (seg : Segment) (p : ℕ)
    → s.shm_ptr ≡ some p
    → Books s.release_ring s.ring_head seg.header.ref_counts
    → is_new s.last_frame_number seg.header ≡ true
    → seg.header.magic ≡ shm_magic
    → seg.header.write_idx < s.pool_size
    → let (flow, buffer, s', seg') = create around s seg in
      (flow ≡ flow_ok)
      × (buffer
          ≡ some (record {
            surface = get_or s.imported_surfaces seg.header.write_idx none;
            pts = seg.header.timestamp_ns;
            det_meta =
                if s.meta_available
                then add_det_meta true (get_or seg.metas seg.header.write_idx blank_meta)
                else none;
          }))
      × (s'.last_frame_number ≡ seg.header.frame_number)
      × (get_or s'.release_ring s.ring_head no_ref
          ≡ record { ptr = some seg.header.write_idx; active = true })
      × (s'.shm_ptr ≡ some p)
      × (seg'.header.frame_number ≡ seg.header.frame_number)
unfolding deliver rotate
create_delivers around s seg p e b fresh magic within =
    rw
      (
        create_mapped around s seg p e,
        wait_frame_new around s.last_frame_number 2000 0 seg fresh,
        create_frame_ok around s seg (ground arith) (ground (arith, capped_kept seg.header s))
            (nonneg s.release_ring s.ring_head seg.header.ref_counts seg.header.write_idx b),
      )
      (let k = capped_kept seg.header s in
        rw (k.1, k.2, k.3, k.4)
          (
            refl,
            refl,
            refl,
            get_or-set_self s.release_ring s.ring_head _ no_ref (omega (arith, b.full, b.inside)),
            k.5 ∙ e,
            refl,
          ))

-- A reader that has already seen the announced frame number gets no buffer: if nothing else happens
-- it gives up with EOS and nothing changes.
pub create_gives_up :
    (s : AppSrc) (seg : Segment) (p : ℕ)
    → s.shm_ptr ≡ some p
    → is_new s.last_frame_number seg.header ≡ false
    → create (alone (λ i. false)) s seg ≡ (flow_eos, none, s, seg)
create_gives_up s seg p e old = rw (
  create_mapped (alone (λ i. false)) s seg p e,
  wait_frame_old s.last_frame_number 2000 0 seg old,
)
