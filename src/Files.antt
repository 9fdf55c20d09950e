-- ===== src/Files.antt =====
-- Paths, and the file system as the program calls it.
pub mod Paths
pub mod Os
