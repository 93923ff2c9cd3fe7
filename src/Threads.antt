-- ===== src/Threads.antt =====
-- The user-level threads of hw4: hw4/userthread.cpp and hw4/userthread_aging.cpp.
pub mod State
pub mod Queues
pub mod Times
pub mod Setup
pub mod Scheduler
pub mod Calls
pub mod Session
pub mod Places
pub mod Estimates
mod Least
pub mod Refusals
pub mod RoundRobin
pub mod Dropped
pub mod Lottery
pub mod Sound
mod Runs
