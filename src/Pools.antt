-- ===== src/Pools.antt =====
-- src/pipeline/custom_allocators: the memory resources that hand out a pipeline's blocks.
-- An address is a number. An `assert` that fails is `undefined`; the statistics that `PRINT_STATS`
-- switches on are left out.
pub mod Fixed
pub mod Arena
pub mod Pooled
