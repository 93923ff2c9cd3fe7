-- ===== src/Matrix.antt =====
-- The product of two matrices by threads, hw2/matrix.c.
pub mod Pool
pub mod Program
mod Keeping
mod Product
mod Tallying
mod Raising
mod InTurn
mod Stages
mod Sequence
mod Race
mod Runs
