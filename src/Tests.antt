-- ===== src/Tests.antt =====
-- Runs of the definitions on small data, part by part, and the theorems applied to them.
mod Completed
mod Plain
mod Scheduler
mod Machine
mod Table
mod Buffers
mod Io
mod Sample
mod Events
mod Calls
mod Handles
mod Steps
mod Paths
mod Codes
mod Programs
mod Clients
mod Sockets
mod Texts
