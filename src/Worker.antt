-- ===== src/Worker.antt =====
-- The worker process of app/real_worker.py: Errors is the classification of what a task raises, and
-- Loop how `run_once` runs a claimed task.
pub mod Errors
pub mod Loop
pub mod Tests
