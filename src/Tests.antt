-- ===== src/Tests.antt =====
-- Runs of the model on concrete inputs, and each theorem at one of them.
mod Pipeline
mod Layers
mod Platforms
mod Network
mod Queues
mod Scheduling
mod ChunkedPrefill
mod Helpers
mod Table
mod Batching
mod Splitting
mod Swarms
mod Registering
mod Messages
mod Flights
