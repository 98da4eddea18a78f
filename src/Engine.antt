-- ===== src/Engine.antt =====
-- molink/engine/molink_engine.py, the engine of molink: how many micro batches run at a time, and the
-- loop that starts them.
pub mod Latency
pub mod Batches
pub mod Loop
pub mod Ready
pub mod Flight
