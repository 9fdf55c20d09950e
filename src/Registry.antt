-- ===== src/Registry.antt =====
-- internal/registry: what the daemon keeps in its database. `Frames` has the tables of chat frames,
-- `Rows` those of instances and secrets.
pub mod Frames
pub mod Rows
