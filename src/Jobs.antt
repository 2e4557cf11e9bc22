-- ===== src/Jobs.antt =====
-- src/taskDispatch: the queue of encrypted task jobs of one room.
pub mod Ciphertext
pub mod Worker
pub mod Policy
pub mod Lifecycle
pub mod Store
pub mod Capacity
pub mod Claims
pub mod Writers
pub mod Due
pub mod Routes
