-- ===== src/Tests.antt =====
-- Concrete libraries and states, and the theorems at them.
mod Libraries
mod Streams
mod Hops
mod Downloads
mod Starts
mod Peers
mod Meetings
mod Clients
mod Sessions
mod Web
mod Runs
mod Search
mod Memory
mod Floods
