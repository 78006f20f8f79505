-- ===== src/Pipeline.antt =====
-- include/pipeline/: the books by stock locate, the handler that applies messages to them, the threads
-- of the replay, and the snapshots.
pub mod BookTable
pub mod BookBuilder
pub mod LadderTraits
pub mod Spsc
pub mod Envelope
pub mod Threads
pub mod Snapshot
mod Tests
