-- ===== src/Surface.antt =====
-- Surfaces and their owners (gst/common/nvbufsurface_mock.h, nvmm_buffer.cpp, nvmm_transform.cpp).
pub mod Mock
pub mod Calls
pub mod Layout
pub mod Mapping
pub mod Types
pub mod Buffer
pub mod Owners
pub mod Program
pub mod Transform
pub mod Scale
