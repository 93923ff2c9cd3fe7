-- ===== src/Baboons.antt =====
-- hw3/baboon39.c and hw3/baboon40.c: baboons that cross a rope in two directions, as processes over
-- shared counters and semaphores.
pub mod Crowd
pub mod Process
pub mod System
pub mod Invariant
pub mod Safety
pub mod Progress
pub mod Ending
mod Runs
