-- ===== src/Restore.antt =====
-- Restore jobs of app/real_worker.py: Quote is the encoding of keys in manifests and reports,
-- Report the evidence of one job, Submit `submit_restore`, Heads the availability requests, and Poll
-- `poll_restore`. S3, S3 Batch and their answers are arguments; an answer that raises is an error of
-- the task, which run_once handles.
pub mod Core
pub mod Quote
pub mod Report
pub mod Submit
pub mod Heads
pub mod Poll
pub mod Tests
