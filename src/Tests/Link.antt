-- ===== src/Tests/Link.antt =====
-- gst/nvmmsink and gst/nvmmappsrc at concrete inputs: a segment of 13 slots, its producer, and a
-- reader.
use gst_nvmm_cpp.Common.{
  ℕ, ◌+◌, ◌%◌, ◌^◌, ◌<◌, ◌≡◌, ◌≢◌, refl, [], ◌∷◌, none, some, true, false, set, get_or, replicate,
  arith,
}
use gst_nvmm_cpp.Common.Int.{pos, negsuc}
use gst_nvmm_cpp.Ipc.Protocol.{Segment, ShmHeader, pool_capacity, shm_magic}
use gst_nvmm_cpp.Ipc.Os.{Os}
use gst_nvmm_cpp.Ipc.Sink.State.{Sink}
use gst_nvmm_cpp.Ipc.Sink.Render.{flow_ok, flow_eos, Frame, ref_count, render, blank_meta}
use gst_nvmm_cpp.Ipc.AppSrc.State.{AppSrc, RefSlot, no_ref, release_delay}
use gst_nvmm_cpp.Ipc.AppSrc.Lifecycle.{stop}
use gst_nvmm_cpp.Ipc.AppSrc.Create.{create}
use gst_nvmm_cpp.Ipc.AppSrc.Ring.{held}
use gst_nvmm_cpp.Ipc.Link.World.{
  World, alone, after_render, after_create, rendered, created, Reach, here, next, Ready, LinkInv,
  fresh-Books,
}
use gst_nvmm_cpp.Ipc.Link.History.{Step-LinkInv, history_never_starves}
use gst_nvmm_cpp.Ipc.Link.Delivery.{create_delivers, create_gives_up}
use gst_nvmm_cpp.Ipc.Link.Arrival.{create-render}
use gst_nvmm_cpp.Ipc.Link.Slots.{render_drops, render_same_slot, stop_releases}

abbrev idle_header : ShmHeader
idle_header = record {
  magic = shm_magic;
  version = 3;
  width = 640;
  height = 480;
  format = 23;
  pool_size = 13;
  num_planes = 2;
  pitches = 640 ∷ 640 ∷ [];
  offsets = 0 ∷ 307200 ∷ [];
  socket_path = [];
  write_idx = 0;
  frame_number = 0;
  timestamp_ns = 0;
  ready = 0;
  ref_counts = replicate pool_capacity (pos 0);
  meta_enabled = 0;
  meta_objects = 0;
}

abbrev fresh : Segment
fresh = record { header = idle_header; metas = [] }

abbrev producer : Sink
producer = record (gst_nvmm_cpp.Ipc.Sink.State.init) {
  shm_ptr = some 4096;
  pool_size = 13;
  pool_allocated = true;
}

abbrev reader : AppSrc
reader = record (gst_nvmm_cpp.Ipc.AppSrc.State.init) { shm_ptr = some 8192; pool_size = 13 }

abbrev picture : Frame
picture = record { nvmm = true; batch = none; pts = 40; transformed = true }

abbrev world : World
world = record { sink = producer; src = reader; seg = fresh }

producer-Ready : Ready producer
producer-Ready = record {
  pointer = 4096;
  mapped = refl;
  allocated = refl;
  low = omega arith;
  high = omega arith;
}

world-LinkInv : LinkInv world
world-LinkInv = record { ready = producer-Ready; books = fresh-Books }

Step-LinkInv_example : LinkInv (after_render true picture world)
Step-LinkInv_example = Step-LinkInv (rendered world true picture) world-LinkInv

abbrev after_first : World
after_first = after_render false picture world

abbrev after_second : World
after_second = after_create (alone (λ i. false)) after_first

two_calls : Reach world after_second
two_calls = next (next here (rendered world false picture)) (created after_first (λ i. false))

history_never_starves_example :
    let (flow, s, seg) = render false picture after_second.sink after_second.seg in
    (flow ≡ flow_ok)
    × (seg.header.write_idx < after_second.sink.pool_size)
    × (held seg.header.write_idx after_second.src.release_ring ≡ 0)
    × (seg.header.frame_number ≡ after_second.sink.frame_number)
    × (seg.header.timestamp_ns ≡ picture.pts)
    × (seg.header.ready ≡ 1)
    × (s.frame_number ≡ (after_second.sink.frame_number + 1) % 2 ^ 64)
history_never_starves_example =
    history_never_starves false picture world-LinkInv two_calls refl refl

-- A second frame stands in slot 1.
abbrev announced : Segment
announced = record {
  header = record idle_header { write_idx = 1; frame_number = 1; timestamp_ns = 40; ready = 1 };
  metas = [];
}

create_delivers_run :
    let (flow, buffer, s', seg') = create (alone (λ i. false)) reader announced in
    (flow ≡ flow_ok)
    × (buffer
        ≡ some (record {
          surface = get_or reader.imported_surfaces 1 none;
          pts = 40;
          det_meta = none;
        }))
    × (s'.last_frame_number ≡ 1)
    × (get_or s'.release_ring 0 no_ref ≡ record { ptr = some 1; active = true })
    × (s'.shm_ptr ≡ some 8192)
    × (seg'.header.frame_number ≡ 1)
create_delivers_run =
    create_delivers (alone (λ i. false)) reader announced 8192 refl fresh-Books refl refl
      (omega arith)

create_gives_up_run :
    create (alone (λ i. false)) (record reader { last_frame_number = 1 }) announced
    ≡ (flow_eos, none, record reader { last_frame_number = 1 }, announced)
create_gives_up_run =
    create_gives_up (record reader { last_frame_number = 1 }) announced 8192 refl refl

render_drops_example :
    (((i : ℕ) → i < 13 → ref_count (replicate pool_capacity (pos 0)) i ≢ pos 0)
      → render false picture producer fresh ≡ (flow_ok, producer, fresh))
    × ((i : ℕ)
        → i < 13
        → ref_count (replicate pool_capacity (pos 0)) i ≡ pos 0
        → let (flow, s', seg') = render false picture producer fresh in
          (flow ≡ flow_ok)
          × (seg'.header.frame_number ≡ 0)
          × (seg'.header.ready ≡ 1)
          × (ref_count (replicate pool_capacity (pos 0)) seg'.header.write_idx ≡ pos 0))
render_drops_example = render_drops false picture producer fresh producer-Ready refl refl

render_same_slot_example :
    let (flow, s', seg') = render false picture producer fresh in
    (seg'.header.write_idx ≡ 1)
    × (s'.write_idx ≡ 0)
    × (seg'.header.ref_counts ≡ set (set (replicate pool_capacity (pos 0)) 1 (negsuc 0)) 1 (pos 0))
render_same_slot_example =
    render_same_slot false picture producer fresh producer-Ready refl refl refl refl

-- A reader with one reference on slot 1, which another reader holds too.
abbrev leaving : AppSrc
leaving = record reader {
  release_ring = set (replicate release_delay no_ref) 0 (record { ptr = some 1; active = true });
}

abbrev shared : Segment
shared = record {
  header = record idle_header { ref_counts = set (replicate pool_capacity (pos 0)) 1 (pos 2) };
  metas = [];
}

abbrev idle : Os
idle = record { open_fds = []; mappings = []; surfaces = []; socket_files = []; shm_files = [] }

stop_releases_example :
    let (s', seg', os') = stop leaving shared idle in
    (ref_count seg'.header.ref_counts 1 ≡ pos 1) × (held 1 s'.release_ring ≡ 0)
stop_releases_example = stop_releases leaving shared idle 1 1 (omega arith) refl

-- The second frame of a producer, and a reader that has seen none.
abbrev second : World
second = record {
  sink = record producer { frame_number = 1 };
  src = reader;
  seg = record { header = idle_header; metas = replicate pool_capacity blank_meta };
}

second-LinkInv : LinkInv second
second-LinkInv = record { ready = second_ready; books = fresh-Books }
  where
    second_ready : Ready (record producer { frame_number = 1 })
    second_ready = record {
      pointer = 4096;
      mapped = refl;
      allocated = refl;
      low = omega arith;
      high = omega arith;
    }

create-render_example :
    let (flow, sink, seg) = render true picture second.sink second.seg in
    let (flow', buffer, src, seg') = create (alone (λ i. false)) second.src seg in
    (t : ℕ) × (t < 13)
    × (held t second.src.release_ring ≡ 0)
    × (flow ≡ flow_ok)
    × (flow' ≡ flow_ok)
    × (buffer
        ≡ some (record {
          surface = get_or second.src.imported_surfaces t none;
          pts = 40;
          det_meta = none;
        }))
    × (get_or src.release_ring 0 no_ref ≡ record { ptr = some t; active = true })
    × (create (alone (λ i. false)) src seg' ≡ (flow_eos, none, src, seg'))
create-render_example =
    create-render true picture (alone (λ i. false)) second 8192 second-LinkInv refl refl
      (omega arith) refl (omega arith) refl refl
