-- ===== src/Gateway.antt =====
-- cmd/aegis-gateway: the process beside an instance. `Scheduler` fires the agent's scheduled tasks.
pub mod Scheduler
