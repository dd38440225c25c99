-- ===== src/Tests/Meta.antt =====
-- gst/common/nvmm_det_meta.cpp and gst/common/fd_ipc.h at concrete inputs.
use gst_nvmm_cpp.Common.{
  ℕ, ◌^◌, ◌-◌, ◌≤◌, ◌<◌, ◌≡◌, refl, ◌⊎◌, List, [], ◌∷◌, ◌++◌, none, some, true, false, min, take,
  length, replicate, length-replicate,
}
use gst_nvmm_cpp.Common.Int.{pos}
use gst_nvmm_cpp.Ipc.Protocol.{DetObject, FrameMeta, meta_max_objects, flag_truncated}
use gst_nvmm_cpp.Ipc.Os.{Os, remove_name}
use gst_nvmm_cpp.Ipc.Fd.{
  Received, control, recv_fds, installed, server_listen, client_connect, sun_path_bytes,
  recv_fds_no_leak, server_listen_lem, client_connect_lem,
}
use gst_nvmm_cpp.DetMeta.{
  attach, NvObject, NvFrame, NvBatch, BufferMeta, find_frame, frame_meta_from_nvds, add_det_meta,
  transform_meta,
}
use gst_nvmm_cpp.DetMeta.Collect.{present, wire}
use gst_nvmm_cpp.DetMeta.Delivery.{
  frame_meta_objects, frame_meta_empty, truncated_flag, det_meta_delivered, transform-add_det_meta,
}

abbrev blank_object : DetObject
blank_object = record {
  left = 0;
  top = 0;
  width = 0;
  height = 0;
  class_id = pos 0;
  confidence = 0;
  tracker_id = 0;
  label = [];
}

abbrev slot_meta : FrameMeta
slot_meta = record {
  frame_number = 0;
  infer_width = 0;
  infer_height = 0;
  num_objects = 7;
  flags = 1;
  objects = replicate meta_max_objects blank_object;
}

abbrev car : NvObject
car = record {
  left = 10;
  top = 20;
  width = 30;
  height = 40;
  class_id = pos 2;
  confidence = 9;
  object_id = 2 ^ 64 - 1;
  obj_label = some (b'c' ∷ b'a' ∷ b'r' ∷ []);
}

abbrev two_cars : NvFrame
two_cars = record {
  batch_id = 0;
  obj_meta_list = some car ∷ none ∷ some (record car { object_id = 5 }) ∷ [];
}

abbrev batch : NvBatch
batch = none ∷ some (record two_cars { batch_id = 3 }) ∷ some two_cars ∷ []

found : find_frame 0 batch ≡ some two_cars
unfolding find_frame
found = refl

frame_meta_objects_example :
    let (n, m) = frame_meta_from_nvds (some batch) 0 640 480 9 slot_meta in
    (n ≡ min meta_max_objects (length (present two_cars.obj_meta_list)))
    × (m.num_objects ≡ n)
    × (take n m.objects ≡ take meta_max_objects (wire two_cars.obj_meta_list))
    × (m.frame_number ≡ 9)
    × (m.infer_width ≡ 640)
    × (m.infer_height ≡ 480)
    × (length m.objects ≡ meta_max_objects)
frame_meta_objects_example =
    frame_meta_objects batch 0 640 480 9 slot_meta two_cars
      (length-replicate meta_max_objects blank_object) found

missing : (b : NvBatch) → some ([]) ≡ some b → find_frame 0 b ≡ none
unfolding find_frame
missing [] e = refl
missing (f ∷ b) e = cc

frame_meta_empty_run :
    let (n, m) = frame_meta_from_nvds (some []) 0 640 480 9 slot_meta in
    (n ≡ 0) × (m.num_objects ≡ 0) × (m.flags ≡ 0) × (m.frame_number ≡ 9)
frame_meta_empty_run = frame_meta_empty (some []) 0 640 480 9 slot_meta missing

truncated_flag_run :
    let (n, m) = frame_meta_from_nvds (some batch) 0 640 480 9 slot_meta in
    (meta_max_objects < length (present two_cars.obj_meta_list) → m.flags ≡ flag_truncated)
    × (length two_cars.obj_meta_list ≤ meta_max_objects → m.flags ≡ 0)
truncated_flag_run = truncated_flag batch 0 640 480 9 slot_meta two_cars found

det_meta_delivered_example :
    let m = (frame_meta_from_nvds (some batch) 0 640 480 9 slot_meta).1 in
    add_det_meta true m
    ≡ some (record {
      frame_number = 9;
      infer_width = 640;
      infer_height = 480;
      flags = m.flags;
      num_objects = min meta_max_objects (length (present two_cars.obj_meta_list));
      objects = take meta_max_objects (wire two_cars.obj_meta_list);
    })
det_meta_delivered_example =
    det_meta_delivered batch 0 640 480 9 slot_meta two_cars
      (length-replicate meta_max_objects blank_object) found

abbrev attached : BufferMeta
attached = record {
  frame_number = 0;
  infer_width = 0;
  infer_height = 0;
  flags = 1;
  num_objects = 7;
  objects = take 7 slot_meta.objects;
}

attached_lem : add_det_meta true slot_meta ≡ some attached
unfolding add_det_meta attach
attached_lem = refl

transform-add_det_meta_run :
    (transform_meta true true attached ≡ some attached)
    × (transform_meta false true attached ≡ none)
transform-add_det_meta_run =
    transform-add_det_meta slot_meta attached (length-replicate meta_max_objects blank_object)
      attached_lem

-- Three descriptors come where two are expected: all are closed.
abbrev busy_os : Os
busy_os = record {
  open_fds = 11 ∷ 12 ∷ 13 ∷ 3 ∷ [];
  mappings = [];
  surfaces = [];
  socket_files = [];
  shm_files = [];
}

abbrev message : Received
message = control (record { sol_socket = true; scm_rights = true; fds = 11 ∷ 12 ∷ 13 ∷ [] })

recv_fds_no_leak_example :
    let (got, os') = recv_fds message 2 busy_os in
    ((got ≡ none) × (os'.open_fds ≡ 3 ∷ []))
    ⊎ ((fds : List ℕ) × (got ≡ some fds)
        × (length fds ≡ 2)
        × (fds ≡ installed message)
        × (os'.open_fds ≡ fds ++ (3 ∷ [])))
recv_fds_no_leak_example = recv_fds_no_leak message 2 busy_os (3 ∷ []) refl

mismatch_closes : recv_fds message 2 busy_os ≡ (none, record busy_os { open_fds = 3 ∷ [] })
unfolding recv_fds
mismatch_closes = refl

abbrev path : List ℕ
path = b'/' ∷ b's' ∷ []

server_listen_lem_run :
    let (got, os') = server_listen path (some 4) true false busy_os in
    ((got ≡ none)
      × (os'.open_fds ≡ busy_os.open_fds)
      × (os'.socket_files ≡ remove_name path busy_os.socket_files))
    ⊎ ((s : ℕ) × (got ≡ some s)
        × (length path < sun_path_bytes)
        × (os'.open_fds ≡ s ∷ busy_os.open_fds)
        × (os'.socket_files ≡ path ∷ remove_name path busy_os.socket_files))
server_listen_lem_run = server_listen_lem path (some 4) true false busy_os

client_connect_lem_run :
    let (got, os') = client_connect path (some 4) true busy_os in
    ((got ≡ none) × (os'.open_fds ≡ busy_os.open_fds))
    ⊎ ((s : ℕ) × (got ≡ some s)
        × (length path < sun_path_bytes)
        × (os'.open_fds ≡ s ∷ busy_os.open_fds))
client_connect_lem_run = client_connect_lem path (some 4) true busy_os
