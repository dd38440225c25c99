-- ===== src/Tests/Race.antt =====
-- gst/nvmmsink and gst/nvmmappsrc access by access at a concrete segment of 13 slots, with two readers.
use gst_nvmm_cpp.Common.{◌≡◌, refl, [], ◌∷◌, none, some, true, set, replicate, arith}
use gst_nvmm_cpp.Common.Int.{pos, negsuc}
use gst_nvmm_cpp.Ipc.Protocol.{Segment, ShmHeader, pool_capacity, shm_magic}
use gst_nvmm_cpp.Ipc.Sink.State.{Sink}
use gst_nvmm_cpp.Ipc.Sink.Render.{Frame, try_lock, set_refs}
use gst_nvmm_cpp.Ipc.AppSrc.State.{AppSrc}
use gst_nvmm_cpp.Ipc.Race.{
  System, Reader, idle, searching, copying, unlocked, outside, enter, lock, Step, write, Reach,
  here, next, counters,
}
use gst_nvmm_cpp.Ipc.Race.Count.{holds}
use gst_nvmm_cpp.Ipc.Race.Inv.{RaceInv, Fresh, Reach-RaceInv}
use gst_nvmm_cpp.Ipc.Race.Lock.{SlotStep, slot, Step-SlotStep, copying_alone}

abbrev idle_header : ShmHeader
idle_header = record {
  magic = shm_magic;
  version = 3;
  width = 640;
  height = 480;
  format = 23;
  pool_size = 13;
  num_planes = 2;
  pitches = 640 ∷ 640 ∷ [];
  offsets = 0 ∷ 307200 ∷ [];
  socket_path = [];
  write_idx = 1;
  frame_number = 0;
  timestamp_ns = 0;
  ready = 0;
  ref_counts = replicate pool_capacity (pos 0);
  meta_enabled = 0;
  meta_objects = 0;
}

abbrev fresh : Segment
fresh = record { header = idle_header; metas = [] }

abbrev producer : Sink
producer = record (gst_nvmm_cpp.Ipc.Sink.State.init) {
  shm_ptr = some 4096;
  pool_size = 13;
  pool_allocated = true;
}

abbrev reader : AppSrc
reader = record (gst_nvmm_cpp.Ipc.AppSrc.State.init) { shm_ptr = some 8192; pool_size = 13 }

abbrev picture : Frame
picture = record { nvmm = true; batch = none; pts = 40; transformed = true }

abbrev waiting : Reader
waiting = record { src = reader; at = outside }

abbrev before : System
before = record { sink = producer; writer = idle; seg = fresh; readers = waiting ∷ waiting ∷ [] }

abbrev looking : System
looking = record before { writer = searching picture 0 }

abbrev locked_seg : Segment
locked_seg = set_refs (set (counters fresh) 1 (negsuc 0)) fresh

abbrev busy_copying : System
busy_copying = record before { seg = locked_seg; writer = copying picture 1 }

abbrev released : System
released = record before {
  seg = set_refs (set (counters locked_seg) 1 (pos 0)) locked_seg;
  writer = unlocked picture 1;
}

before-Fresh : Fresh before
before-Fresh = record {
  resting = refl;
  zeros = refl;
  few = omega arith;
  empty = ((refl, refl, refl), ((refl, refl, refl), tt));
}

to_looking : Reach before looking
to_looking = next here (write (enter picture 4096 refl refl refl))

lock_taken : Step looking busy_copying
unfolding try_lock
lock_taken = write (lock picture 0 _ (omega arith) refl)

to_copying : Reach before busy_copying
to_copying = next to_looking lock_taken

Reach-RaceInv_example : RaceInv busy_copying
Reach-RaceInv_example = Reach-RaceInv before-Fresh to_copying

Step-SlotStep_example : SlotStep (slot 1 looking) (slot 1 busy_copying)
Step-SlotStep_example = Step-SlotStep 1 (omega arith) before-Fresh to_looking lock_taken

copying_alone_example : holds 1 waiting ≡ 0
copying_alone_example =
    copying_alone picture 1 1 waiting (omega arith) before-Fresh to_copying refl refl
