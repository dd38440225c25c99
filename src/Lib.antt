-- ===== src/Lib.antt =====
-- gst-nvmm-cpp: GStreamer elements that pass video frames in NVIDIA memory between processes.
--
-- The producer's element nvmmsink (gst/nvmmsink/gstnvmmsink.cpp) owns a pool of 13 to 16 surfaces and a
-- shared-memory segment (gst/common/shm_protocol.h): a header with a counter for each slot and, where
-- detections are exported, a metadata record for each slot. The consumer's element nvmmappsrc
-- (gst/nvmmappsrc/gstnvmmappsrc.cpp) maps the segment, gets the surfaces' descriptors over a socket
-- (gst/common/fd_ipc.h), and takes a reference on the slot of each frame that it delivers. It gives a
-- reference back when twelve newer ones stand in its ring.
--
-- The modules:
--   Common: numbers, lists, 32-bit signed integers (wrap-around written out), binary32 numbers (bit
--     patterns; the processor's operations are a parameter).
--   Ipc.Protocol, Ipc.Fd, Ipc.Os: shm_protocol.h, fd_ipc.h, and the descriptors, mappings, surfaces and
--     files that a process has open. The kernel's answers are arguments of the operations.
--   Ipc.Sink: gstnvmmsink.cpp. State has the private struct, the initial state and the property setter;
--     Lifecycle set_caps (with allocate_pool) and start; Stop the rounds of accept_loop and stop; Render
--     the render function; Scan the search for a free slot; Ownership what start opens and stop closes.
--   Ipc.AppSrc: gstnvmmappsrc.cpp. State as above; Lifecycle start and stop; Create the create function,
--     whose other threads (what happens to the segment while it waits) are an argument; Ring the
--     references that the ring holds.
--   Ipc.Link: one producer and one consumer on a segment, a call at a time; Arrival goes from one render to the
--     next create, FirstFrame from both starts to the first frame. A surface is its handle, and
--     a null pointer or descriptor -1 is `none`. NvBufSurfaceCreate, NvBufSurfTransform and the other
--     calls of libraries are arguments, which say how the call ends.
--   Ipc.Race: render, create and stop access by access, a producer and any number of readers (up to 2 ^ 20) in
--     any order. Between two accesses of the shared counters a process only works on its own memory, so the
--     stores of the header at the end of render are one access, and so is the ring's rotation. Memory is
--     sequentially consistent, as the full barriers of the code's atomic built-ins ask for. Count, Moves, Inv,
--     Lock and Metadata have the theorems.
--   DetMeta: gst/common/nvmm_det_meta.cpp.
--   SecondaryCache: gst/nvmmsecondaryinfer/secondary_cache.cpp. The hash map is an association list.
--   SecondaryInfer: gst/nvmmsecondaryinfer/gstnvmmsecondaryinfer.cpp, around the cache. Classify has transform_ip; Ready
--     has the theorem on start, Steps and Known those on transform_ip.
--   Tracker: gst/nvmmtracker/tracker.cpp, and Tracker.Element gst/nvmmtracker/gstnvmmtracker.cpp, whose streams are in
--     Tracker.Runs. `max_age` is not negative, as the element's property has it.
--   Persistence: analytics/persistence_gate.hpp (Young and Lock have the theorems). What std::sort does is
--     a parameter.
--   Surface: the surfaces of gst/common/nvbufsurface_mock.h (Mock: layout, map and unmap; Calls: the other
--     calls; Layout and Mapping: their theorems) and their owner gst/common/nvmm_buffer.cpp with the types
--     of nvmm_types.hpp (Types, Buffer; Owners and Program have the theorems). gst/common/nvmm_transform.cpp is in
--     Transform, whose library call is an argument, and Scale. Sizes are 32 bits wide. A surface has a number,
--     and the surfaces that exist are a list of numbers.
--   Yolo: gst/nvmminfer/yolo_parser.cpp (Labels: the class names; Suppress and Candidates: the theorems). What
--     std::sort leaves is a parameter.
--   Gate: gst/nvmmdetgate. Blob has the data of detgate.hpp and motion_blob, Gate the class DetGate, Element
--     gstnvmmdetgate.cpp, whose feature matcher and binary64 arithmetic are parameters; Recent, Answers, Roots
--     and Emitted have the theorems. `find` has the square of the number of points as fuel (Gate.Roots).
--   Draw: gst/nvmmdrawdet/gstnvmmdrawdet.cpp. Pixels has the drawing functions as the bytes they store, Draw the
--     element; Inside and Output have the theorems.
--   Consts: gst/nvmmsamurai/samurai_consts.hpp. Encode writes the file's format out, and has the theorem.
--   MaskBox: gst/nvmmsamurai/samurai_seed_math.hpp; Known and Tight have the theorems on mask_to_box, Upsample the
--     other two functions.
--   Compositor: aggregate and the setters of gst/nvmmcompositor/gstnvmmcompositor.cpp; Tiles has the theorem.
--   Motion: gst/common/nvmm_motion.cpp, with places of either sign; Field has the theorem, and what it assumes of
--     binary32. Fusion: gst/nvmmfusion/gstnvmmfusion.cpp, whose pads
--     are queues of buffers; Join has the theorem.
--   Kalman: gst/common/kalman_box.cpp. FuseKf: gst/nvmmfusekf/gstnvmmfusekf.cpp; Silence and Cooldown have the
--     theorems.
--   Convert: gst/nvmmconvert/gstnvmmconvert.cpp, around Surface.Transform; Caps has the caps functions. Borrows,
--     Pools and Caps.Sizes have the theorems.
--   Tests: the theorems at concrete inputs.
--
-- Waiting loops run on the number of rounds that the code allows (5000 in the reader's start, 2000 for a
-- frame, 1000 for a slot that the writer has locked), so no run is cut short by fuel.
--
-- Not modelled: GObject and GStreamer registration, the getters and logging; the allocator with its buffer pool and
-- the other buffer metas, which are calls of GStreamer; the elements nvmminfer, nvmmsamurai and nvmmofa, which
-- are calls of TensorRT, CUDA and VPI around floating-point arithmetic; and the floating-point image analysis.
pub mod Common
pub mod Ipc
pub mod DetMeta
pub mod Persistence
pub mod SecondaryCache
pub mod SecondaryInfer
pub mod Surface
pub mod Yolo
pub mod Gate
pub mod Draw
pub mod Consts
pub mod MaskBox
pub mod Motion
pub mod Fusion
pub mod Kalman
pub mod FuseKf
pub mod Compositor
pub mod Convert
pub mod Tracker
pub mod Tests
