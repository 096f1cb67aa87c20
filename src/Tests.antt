-- ===== src/Tests.antt =====
-- Runs of the model at concrete inputs, and each theorem with hypotheses at one.
mod Codec
mod Wire
mod Connections
mod Clients
mod Tickets
mod Caches
mod Announcements
mod Arrays
mod Discovery
mod Services
mod Requests
mod Announced
mod Starts
mod Multicasts
mod Pools
mod Runs
mod Tools
mod Debuggers
