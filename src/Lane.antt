-- ===== src/Lane.antt =====
-- The continuous transfer lane: how urgent an object is, how restored objects enter the queue, and
-- how a dispatcher claims, returns and hands over queue items (app/main.py, app/real_worker.py).
mod Query
mod Tests
pub mod Keys
pub mod Reason
pub mod Priority
pub mod Admission
pub mod Refresh
pub mod Recover
pub mod Claim
pub mod Preempt
pub mod Dispatch
pub use Query.*
