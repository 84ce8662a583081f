-- ===== src/Tests.antt =====
-- Runs of the model on small inputs, and each theorem applied at one.
mod Objects
mod Runs
mod Plans
mod Events
mod Logs
mod Oracles
mod Verdicts
