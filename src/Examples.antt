-- ===== src/Examples.antt =====
-- Tests of the definitions and the theorems at concrete inputs.
pub mod Tasks
pub mod Queues
pub mod Latches
pub mod Loops
pub mod Objects
pub mod Pools
pub mod Pointers
pub mod Checks
pub mod Mounts
pub mod Digits
pub mod Texts
pub mod Threads
pub mod Times
pub mod Waits
pub mod WeakPointers
