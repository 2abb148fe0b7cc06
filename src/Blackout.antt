-- ===== src/Blackout.antt =====
-- The absolute blackout of a Lead with the DNC flag: no handler changes the Lead or schedules a
-- callback on it. The predicate and its rules; the handlers follow in the children, and Runs puts
-- them together.
pub mod Rules
pub mod Portal
pub mod Pools
pub mod Relays
pub mod Runs
