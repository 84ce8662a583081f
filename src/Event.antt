-- ===== src/Event.antt =====
-- sieve_common/k8s_event.py: the events of a run, their kinds and keys, and the log lines that they
-- are read from.
pub mod HearTypes
pub mod WriteTypes
pub mod ApiTypes
pub mod Types
pub mod Keys
pub mod KeyLaws
pub mod Mask
pub mod Records
pub mod Parse
pub mod Reads
pub mod Conflicts
