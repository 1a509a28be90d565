-- ===== src/Core.antt =====
-- `core/`: the events, the queue that carries them, the latency counters and the memory pool.
pub mod Events
pub mod RingBuffer
pub mod EventQueue
pub mod LatencyTracker
pub mod MemoryPool
mod Tests
