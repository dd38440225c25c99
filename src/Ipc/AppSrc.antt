-- ===== src/Ipc/AppSrc.antt =====
-- gst/nvmmappsrc/gstnvmmappsrc.cpp: the consumer's end of the link.
pub mod State
pub mod Lifecycle
pub mod Create
pub mod Ring
