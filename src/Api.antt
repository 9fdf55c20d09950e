-- ===== src/Api.antt =====
-- internal/api/server.go: the handlers of the API.
pub mod Environment
pub mod Workspace
pub mod Instances
