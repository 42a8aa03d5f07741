-- ===== src/Worker/Loop.antt =====
-- `task_kinds_for_role` and the part of `run_once` of app/real_worker.py that runs a claimed task and
-- handles what it raises. A handler is given the task and the database.
pub mod Handles
use copy_s3_to_oci.Base.{ℕ, Bool, true, false, ◌&&◌, ◌||◌, Option, none, some, List}
use copy_s3_to_oci.Schema.{Task, TaskKind, Wave, Source, Db, get_wave, get_source}
use copy_s3_to_oci.Tasks.Worker.{retry, fail_permanently}
use copy_s3_to_oci.Worker.Errors.{Error, Disposition, classify_task_error}
use copy_s3_to_oci.Restore.Submit.{Step}

-- RAIJIN_WORKER_ROLE, its aliases taken together; another one raises at the start.
pub data Role : Type 0 where
  raikou raiju all : Role

unfoldable pub task_kinds_for_role : Role → TaskKind → Bool
task_kinds_for_role Role.all kind = true
task_kinds_for_role Role.raikou TaskKind.transfer_continuous = false
task_kinds_for_role Role.raikou kind = true
task_kinds_for_role Role.raiju TaskKind.transfer_continuous = true
task_kinds_for_role Role.raiju kind = false

-- The handlers by kind.
pub record Handlers : Type 0 where
  pub submitting : Task → Db → Step
  pub polling : Task → Db → Step
  pub transferring : Task → Db → Step
  pub verifying : Task → Db → Step

abbrev pub handler_for : Handlers → TaskKind → Task → Db → Step
handler_for h TaskKind.submit_batch_restore = h.submitting
handler_for h TaskKind.poll_restore = h.polling
handler_for h TaskKind.transfer_continuous = h.transferring
handler_for h TaskKind.verify_wave = h.verifying

-- The delay that the simulated network's recovery asks for.
abbrev pub delay_of : Error → Option ℕ
delay_of (Error.recovery seconds) = some 1
delay_of _ = none

abbrev pub dispose : ℕ → ℕ → Task → Error → Db → Disposition → Db
dispose message now task e db Disposition.retry = retry task message (delay_of e) now db
dispose message now task e db Disposition.failed = fail_permanently task message db

-- `message` stands for the summary of the error.
unfoldable pub handled : ℕ → ℕ → Task → Step → Db
unfolding classify_task_error retry fail_permanently
handled message now task (Step.done db) = db
handled message now task (Step.raised e db) = dispose message now task e db (classify_task_error e)

unfoldable pub run_claimed : Handlers → ℕ → ℕ → Task → Db → Db
unfolding handled
run_claimed h message now task db = handled message now task (handler_for h task.kind task db)
