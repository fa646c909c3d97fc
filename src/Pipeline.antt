-- ===== src/Pipeline.antt =====
-- src/pipeline: the byte pipeline between one writer and one reader.
-- Options, state and the tests of pipeline_impl.h; its operations are in the child modules.
pub mod Options
pub mod State
pub mod Write
pub mod Read
pub mod Advance
pub mod Complete
pub mod Invariant
pub mod Deque
pub mod Chunk
pub mod Rounds
pub mod WriteLoop
pub mod Consume
pub mod Advancing
pub mod Writing
pub mod Reading
pub mod Stream
pub mod Closing
pub mod Transfer
