-- ===== src/Lifecycle.antt =====
-- internal/lifecycle: the manager that drives each instance's state machine. `Types` holds the
-- records, `Boot`, `Idle` and `Stop` the operations on one instance, `Manager` those on the map.
pub mod Types
pub mod Replay
pub mod Boot
pub mod Idle
pub mod Stop
pub mod Wake
pub mod Events
pub mod Invariant
pub mod Idling
pub mod Agreement
pub mod Scaling
pub mod Specs
pub mod Races
pub mod Backoff
pub mod Expose
pub mod Manager
pub mod Guest
pub mod Cascade
pub mod Demuxer
pub mod Token
pub mod Persist
