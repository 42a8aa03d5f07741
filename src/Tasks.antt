-- ===== src/Tasks.antt =====
-- The durable task queue: the handlers /api/tasks/* of app/main.py, and how a worker of
-- app/real_worker.py claims, ends, retries and fails a task. `locked` are the rows that other
-- transactions hold (`with_for_update(skip_locked=True)`); `me` is WORKER_ID.
mod Query
pub mod Lookup
mod Tests
pub mod Api
pub mod Worker
pub use Lookup.{IsUnique}
pub use Query.*
