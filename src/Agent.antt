-- ===== src/Agent.antt =====
-- cmd/aegis-agent: the agent that runs in a guest. `Session` keeps conversations, `Schedules` the file
-- of scheduled tasks, and `Memories` what it remembers.
pub mod Session
pub mod Schedules
pub mod Memories
