-- ===== src/Worker/Loop/Handles.antt =====
-- What becomes of a claimed task.
use copy_s3_to_oci.Base.{ℕ, ◌≤◌, refl, sym, subst, Option, arith, All}
use copy_s3_to_oci.Schema.{Task, Wave, Db}
use copy_s3_to_oci.Tasks.Worker.{retry, retry_delay}
use copy_s3_to_oci.Tasks.Worker.Failure.{fail_permanently-rows}
use copy_s3_to_oci.Worker.Errors.{Error, Disposition, classify_task_error}
use copy_s3_to_oci.Worker.Loop.{dispose, delay_of, handled}
use copy_s3_to_oci.Restore.Submit.{Step}
use copy_s3_to_oci.Restore.Poll as Polling
use copy_s3_to_oci.Restore.Poll.{poll_restore}
use copy_s3_to_oci.Restore.Poll.Released.{
  IsReleased, AreReleased, AreReleasedBy, rewritten-AreReleased, set_failed-AreReleased,
  poll_restore-AreReleasedBy,
}

module _ (message now : ℕ) (task : Task) where
  retried-AreReleased :
      (seconds : Option ℕ) (db : Db)
      → retry_delay seconds task.attempts ≤ 7200
      → AreReleased now task.id (retry task message seconds now db)
  unfolding retry
  retried-AreReleased seconds db h =
      rewritten-AreReleased now task.id _ (λ t. (refl, refl, λ _. omega arith)) db.tasks

  delay_of-le : (e : Error) → retry_delay (delay_of e) task.attempts ≤ 7200
  unfolding retry_delay
  delay_of-le (Error.recovery seconds) = omega arith
  delay_of-le (Error.client status code) = ground arith
  delay_of-le Error.network = ground arith
  delay_of-le (Error.simulator status) = ground arith
  delay_of-le Error.runtime = ground arith

  dispose-AreReleased :
      (e : Error) (db : Db) (d : Disposition)
      → AreReleased now task.id (dispose message now task e db d)
  dispose-AreReleased e db Disposition.retry = retried-AreReleased (delay_of e) db (delay_of-le e)
  dispose-AreReleased e db Disposition.failed =
      subst (All (IsReleased now task.id)) (sym (fail_permanently-rows task message db).1)
        (set_failed-AreReleased now task message db)

  handled-AreReleased :
      (s : Step)
      → AreReleasedBy now task.id s
      → AreReleased now task.id (handled message now task s)
  unfolding handled
  handled-AreReleased (Step.done db) h = h
  handled-AreReleased (Step.raised e db) h = dispose-AreReleased e db (classify_task_error e)

-- A poll always lets its task go: after a poll and the handling of what it raises, each task
-- row with the id of the poll's task has no lease, is not running, and, where it is ready
-- again, is due within two hours.
pub handled-poll_restore-AreReleased :
    (aws : Polling.Aws) (legacy message reserve now : ℕ) (task : Task) (w : Wave) (db : Db)
    → AreReleased now task.id
        (handled message now task (poll_restore aws legacy message reserve now task w db))
handled-poll_restore-AreReleased aws legacy message reserve now task w db =
    handled-AreReleased message now task _
      (poll_restore-AreReleasedBy aws legacy message reserve now task w db)
