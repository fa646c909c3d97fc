-- ===== src/Logging.antt =====
-- src/logging: log messages on their way to a sink.
pub mod Escape
pub mod Output
pub mod Json
pub mod Record
pub mod Batches
