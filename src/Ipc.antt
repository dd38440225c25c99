-- ===== src/Ipc.antt =====
-- The shared-memory link between nvmmsink and nvmmappsrc (gst/common/shm_protocol.h,
-- gst/common/fd_ipc.h, gst/nvmmsink, gst/nvmmappsrc).
pub mod Protocol
pub mod Metas
pub mod Os
pub mod Fd
pub mod Sink
pub mod AppSrc
pub mod Link
pub mod Race
