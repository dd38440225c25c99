-- ===== src/Tests.antt =====
-- The theorems at concrete inputs, and runs of the models.
mod Meta
mod Link
mod Cache
mod Tracking
mod Surfaces
mod Gates
mod Starts
mod Race
mod Detect
mod Seeds
mod Drawing
mod Tensors
mod Masks
mod Composed
mod Fused
mod Kf
mod Classes
mod Converting
mod Negotiating
mod First
