-- ===== src/Tests.antt =====
-- The theorems at concrete inputs, and runs of the code.
mod Bytes
mod Pipes
mod Channels
mod Caches
mod Pools
mod Logs
