-- ===== src/Graph.antt =====
-- sieve_analyzer/event_graph.py: the graph of the events of a run.
pub mod Types
pub mod Build
pub mod Shape
pub mod WellFormed
pub mod Forward
pub mod Cancel
pub mod EventDiff
pub mod Sanity
