-- ===== src/Policy.antt =====
-- sieve_perturbation_policies: which events of a learning run become test plans.
pub mod Context
pub mod Detectable
pub mod Conditions
pub mod Intermediate
pub mod Unobserved
pub mod Timing
pub mod Stale
pub mod Counts
pub mod StaleCounts
pub mod Ends
pub mod Transitions
