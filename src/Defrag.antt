-- ===== src/Defrag.antt =====
-- hw6/defrag.c: a disk image is copied so that the blocks of each file stand one behind another.
pub mod Image
pub mod Copy
pub mod Blocks
pub mod Forest
pub mod Trees
pub mod Moving
pub mod Files
pub mod Rows
pub mod Levels
pub mod Disks
pub mod Inodes
pub mod Tail
pub mod End
pub mod Whole
pub mod Program
mod Runs
