-- ===== src/Tests.antt =====
-- The theorems at concrete inputs.
mod Life
mod Guests
mod Frames
mod Crons
mod Agents
mod Logs
mod Calls
mod Ports
mod Tables
mod Disks
mod Servers
mod Requests
