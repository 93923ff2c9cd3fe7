-- ===== src/Allocator.antt =====
-- hw5/mem.c, hw5/mem.h and hw5/util.h: a worst-fit allocator over one mmapped region.
pub mod State
pub mod Blocks
pub mod Init
pub mod Alloc
pub mod Coalesce
pub mod Free
mod Facts
pub mod Arena
pub mod Cached
pub mod Merging
pub mod Once
pub mod Twice
mod Runs
mod CacheRuns
