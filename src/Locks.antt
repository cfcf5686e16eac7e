-- ===== src/Locks.antt =====
-- The public locks: mutex.go, semaphore.go, rwmutex.go, leader.go and once.go, and the loop by which
-- they wait.
pub mod Loop
pub mod Mutex
pub mod Semaphore
pub mod RwMutex
pub mod Leader
pub mod Once
pub mod Slots
