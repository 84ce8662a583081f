-- ===== src/Analyzer.antt =====
-- sieve_analyzer/analyze.py: from the server log of a learning run to the event graph.
pub mod Scan
pub mod Receive
pub mod Pairs
pub mod Connect
pub mod Edges
pub mod Build
