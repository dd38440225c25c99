-- ===== src/Ipc/Sink.antt =====
-- gst/nvmmsink/gstnvmmsink.cpp: the producer's end of the link.
pub mod State
pub mod Lifecycle
pub mod Stop
pub mod Ownership
pub mod Render
pub mod Scan
