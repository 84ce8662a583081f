-- ===== src/Oracle.antt =====
-- sieve_oracle: what a run leaves behind, and how it is compared with the reference runs.
pub mod Log
pub mod Family
pub mod State
pub mod History
pub mod Compare
pub mod Safety
pub mod Masks
pub mod Trim
pub mod Liveness
pub mod Driver
pub mod StateMask
