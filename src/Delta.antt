-- ===== src/Delta.antt =====
-- sieve_common/event_delta.py: differences of objects, masking, and the test that an object holds
-- what a difference shows.
pub mod Diff
pub mod Canonical
pub mod Part
pub mod Same
pub mod Parts
pub mod Masking
pub mod Conflict
