-- ===== src/Ipc/Link.antt =====
-- The two ends of the link together: what the counters of the header mean.
pub mod Accounts
pub mod Starvation
pub mod World
pub mod Calls
pub mod History
pub mod Arrival
pub mod Delivery
pub mod Slots
pub mod FirstFrame
