-- ===== src/Tests.antt =====
-- The theorems at concrete inputs, and runs of the definitions.
mod Ports
mod Requests
mod Commands
mod Logs
mod Sockets
mod Handlers
mod Guests
mod Workers
mod Lives
mod Sessions
mod Trials
mod Sharing
mod Threads
mod Restarts
