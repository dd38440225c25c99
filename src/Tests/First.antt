-- ===== src/Tests/First.antt =====
-- gst/nvmmsink/gstnvmmsink.cpp and gst/nvmmappsrc/gstnvmmappsrc.cpp: both ends started, and one frame.
use gst_nvmm_cpp.Common.{ℕ, ◌≡◌, refl, [], ◌∷◌, some, none, true, false}
use gst_nvmm_cpp.Ipc.Protocol.{Segment}
use gst_nvmm_cpp.Ipc.Os.{Os}
use gst_nvmm_cpp.Ipc.Fd.{control, server_listen}
use gst_nvmm_cpp.Ipc.Sink.State
use gst_nvmm_cpp.Ipc.Sink.State.{Created, VideoInfo}
use gst_nvmm_cpp.Ipc.Sink.Lifecycle as Producer
use gst_nvmm_cpp.Ipc.Sink.Lifecycle.{
  set_caps, allocate_pool, allocate_from, pool_format, describe, copy_first, socket_name,
  fresh_header,
}
use gst_nvmm_cpp.Ipc.Sink.Render.{
  flow_eos, Frame, render, scan, try_lock, render_into, publish, write_meta,
}
use gst_nvmm_cpp.Ipc.AppSrc.State as Reader
use gst_nvmm_cpp.Ipc.AppSrc.Lifecycle as Consumer
use gst_nvmm_cpp.Ipc.AppSrc.Create.{create}
use gst_nvmm_cpp.Ipc.Link.World.{alone}
use gst_nvmm_cpp.Ipc.Link.FirstFrame.{first_frame_unseen}

abbrev made : Producer.StartCalls
made = record {
  shm_open = some 5;
  ftruncate = true;
  mapped = some 4096;
  socket = some 6;
  bound = true;
  listening = true;
}

abbrev running : Os
running = record { open_fds = []; mappings = []; surfaces = []; socket_files = []; shm_files = [] }

abbrev segment : Segment
segment = record { header = fresh_header false; metas = [] }

abbrev nv12 : VideoInfo
nv12 = record { width = 640; height = 480; format = 23; n_planes = 2 }

abbrev surface : ℕ → Created
surface i = record {
  handle = i;
  buffer_desc = i;
  pitch = 640 ∷ 640 ∷ [];
  offset = 0 ∷ 307200 ∷ [];
  map_params = some (record {
    fd = i;
    width = 640;
    height = 480;
    color_format = 6;
    plane_pitch = [];
    plane_offset = [];
  });
}

abbrev picture : Frame
picture = record { nvmm = true; batch = none; pts = 40; transformed = true }

-- The segment that the reader finds, with a pool of two.
abbrev found : Segment
found = record segment {
  header = record (segment.header) { socket_path = b'/' ∷ b's' ∷ []; pool_size = 2 };
}

abbrev calls : Consumer.StartCalls
calls = record {
  shm_open = some 7;
  st_size = some 4096;
  mapped = some 8192;
  others = λ k seg. seg;
  socket = some 8;
  connected = true;
  pool_size = some 2;
  map_params = λ i. true;
  fds = control (record { sol_socket = true; scm_rights = true; fds = 9 ∷ 10 ∷ [] });
  import_surface = λ i fd. some fd;
}

producer_starts : (Producer.start false made State.init segment running).0 ≡ true
unfolding Producer.start Producer.start_mapped server_listen socket_name
producer_starts = refl

reader_starts : (Consumer.start calls Reader.init found running).0 ≡ true
unfolding Consumer.start Consumer.start_mapped
reader_starts = refl

first_frame_unseen_example :
    let (done, sink1, seg1, os1) = Producer.start false made State.init segment running in
    let (set, sink2, seg2, os2) = set_caps (some nv12) (λ i. some (surface i)) sink1 seg1 os1 in
    let (flow, sink3, seg3) = render false picture sink2 seg2 in
    let (started, src1, found1, os3) = Consumer.start calls Reader.init found running in
    create (alone (λ i. false)) src1 seg3 ≡ (flow_eos, none, src1, seg3)
first_frame_unseen_example =
    first_frame_unseen false picture made (some nv12) (λ i. some (surface i)) State.init segment
      running calls Reader.init found running producer_starts reader_starts

-- That frame stands in slot 1.
shown_unseen :
    (let (done, sink1, seg1, os1) = Producer.start false made State.init segment running in
      let (set, sink2, seg2, os2) = set_caps (some nv12) (λ i. some (surface i)) sink1 seg1 os1 in
      (render false picture sink2 seg2).2.header.write_idx)
    ≡ 1
unfolding Producer.start Producer.start_mapped server_listen socket_name set_caps allocate_pool
    allocate_from describe copy_first render scan try_lock render_into publish write_meta
shown_unseen = refl
