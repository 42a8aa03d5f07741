-- ===== src/Waves.antt =====
-- The operator's requests on waves and sources: pause, resume, queue, reprocess, evidence recovery,
-- audit and deletion of a wave, and the archiving and deletion of a source (app/main.py).
mod Tests
pub mod Cancel
pub mod Lifecycle
pub mod Sources
pub mod Reapproval
