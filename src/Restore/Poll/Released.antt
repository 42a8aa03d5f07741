-- ===== src/Restore/Poll/Released.antt =====
-- The cadence of the polls, and what becomes of the task of a poll.
use copy_s3_to_oci.Base.{
  ℕ, ◌+◌, ◌*◌, ◌≡◌, ◌≤◌, ◌⊎◌, inl, inr, refl, sym, subst, Bool, true, false, Option, none, some,
  List, ◌==◌, arith, any, select, if◌then◌else◌, Bool-cases, Option-cases, All,
  All-update_where_any, update_where,
}
use copy_s3_to_oci.Schema.{
  Wave, Task, TaskState, RestoreAttempt, Db, JobStatus, Tier, Policy, is_ready, is_running,
  is_lost_job, is_complete_job, set_task,
}
use copy_s3_to_oci.Tasks.Worker.{retry, succeed, retry_delay}
use copy_s3_to_oci.Tasks.Worker.Failure.{fail_permanently-rows}
use copy_s3_to_oci.Worker.Errors.{Error}
use copy_s3_to_oci.Waves.Reapproval.{restore_reapproval_is_required, finish_superseded_restore_poll}
use copy_s3_to_oci.Restore.Core.{
  in_wave, is_awaited, expected_window, elapsed_since, restore_availability_poll_delay_seconds,
  fail_restore_attempt, restore_attempt_for_job,
}
use copy_s3_to_oci.Restore.Report.{
  action_required, restore_result_diagnostics, import_completion_report,
}
use copy_s3_to_oci.Restore.Submit.{Step}
use copy_s3_to_oci.Restore.Heads.{Scan, fresh_scan, restored_pending_archives_from_head}
use copy_s3_to_oci.Restore.Poll.{
  Aws, Evidence, poll_restore, batch_evidence, poll_availability, reconcile_objects, poll_again,
  finish_poll, settle, note_error, is_pending_in, judge_report, judge_job, judge_attempt,
  judge_batch, after_evidence, has_evidence, with_progress, with_job_status,
}

-- The next availability poll is between five minutes and two hours away, and at most one hour
-- away where nothing is available yet and half of the tier's service window has passed.
pub restore_availability_poll_delay_seconds_bounds :
    (accepted : Option ℕ) (now : ℕ) (tier : Tier) (partial : Bool) (strategy : Policy) (pending : ℕ)
    → let delay =
        restore_availability_poll_delay_seconds accepted now tier partial strategy pending in
      (300 ≤ delay)
      × (delay ≤ 7200)
      × ((partial ≡ false) → expected_window tier ≤ 2 * elapsed_since accepted now → delay ≤ 3600)
unfolding restore_availability_poll_delay_seconds
restore_availability_poll_delay_seconds_bounds accepted now tier true Policy.as_objects_available
      pending =
    ground arith
restore_availability_poll_delay_seconds_bounds accepted now tier true Policy.after_all_restored
      pending =
    ground arith
restore_availability_poll_delay_seconds_bounds accepted now tier false strategy pending =
    ground arith

-- The task is not claimed any more, and comes back within two hours if it does.
abbrev pub IsReleased : ℕ → ℕ → Task → Type 0
IsReleased now key t =
    (t.id == key) ≡ true
    → (t.lease_expires_at ≡ none)
      × (is_running t.state ≡ false)
      × ((is_ready t.state ≡ true) → t.available_at ≤ now + 7200)

abbrev pub AreReleased : ℕ → ℕ → Db → Type 0
AreReleased now key db = All (IsReleased now key) db.tasks

abbrev pub AreReleasedBy : ℕ → ℕ → Step → Type 0
AreReleasedBy now key (Step.done db) = AreReleased now key db
AreReleasedBy now key (Step.raised e db) = Unit

-- The task's row is written over by one that is not claimed.
pub rewritten-AreReleased :
    (now key : ℕ) (f : Task → Task)
    → ((t : Task)
        → ((f t).lease_expires_at ≡ none)
          × (is_running (f t).state ≡ false)
          × ((is_ready (f t).state ≡ true) → (f t).available_at ≤ now + 7200))
    → (ts : List Task) → All (IsReleased now key) (update_where (λ t. t.id == key) f ts)
rewritten-AreReleased now key f good ts =
    All-update_where_any {Q = IsReleased now key} (λ t. t.id == key) f (λ t _ _. good t)
      (λ t other same. cc) ts

succeed-AreReleased :
    (now : ℕ) (task : Task) (db : Db) → AreReleased now task.id (succeed task none now db)
unfolding succeed
succeed-AreReleased now task db =
    rewritten-AreReleased now task.id _ (λ t. (refl, refl, λ bad. cc bad)) db.tasks

retry-AreReleased :
    (now : ℕ) (task : Task) (message seconds : ℕ) (db : Db)
    → seconds ≤ 7200
    → AreReleased now task.id (retry task message (some seconds) now db)
unfolding retry retry_delay
retry-AreReleased now task message seconds db h =
    rewritten-AreReleased now task.id _ (λ t. (refl, refl, λ _. omega arith)) db.tasks

pub set_failed-AreReleased :
    (now : ℕ) (task : Task) (message : ℕ) (db : Db)
    → AreReleased now task.id (
        set_task task.id
          (λ t. record t {
            state = TaskState.failed;
            lease_expires_at = none;
            error = some message;
          })
          db)
set_failed-AreReleased now task message db =
    rewritten-AreReleased now task.id _ (λ t. (refl, refl, λ bad. cc bad)) db.tasks

module _ (aws : Aws) (legacy message reserve now : ℕ) (task : Task) (w : Wave) where
  fail_restore_attempt-AreReleased :
      (a : RestoreAttempt) (db : Db)
      → AreReleased now task.id (fail_restore_attempt message now task w a db)
  unfolding fail_restore_attempt
  fail_restore_attempt-AreReleased a db =
      subst (All (IsReleased now task.id)) (sym (fail_permanently-rows task message _).1)
        (set_failed-AreReleased now task message db)

  poll_again-AreReleased :
      (db : Db) → AreReleased now task.id (poll_again legacy message reserve now task w db)
  unfolding poll_again
  poll_again-AreReleased db =
      retry-AreReleased now task message _ _
        (restore_availability_poll_delay_seconds_bounds _ now w.restore_tier _
          w.transfer_release_policy _).1

  settle-AreReleased :
      (s : Scan) (db : Db)
      → AreReleasedBy now task.id (settle legacy message reserve now task w (s, db))
  unfolding finish_poll
  settle-AreReleased s db = elim (Option-cases s.error) [
    | inr (e, raised) ↦ rw raised tt
    | inl fine ↦
        elim (Bool-cases
          (any (is_pending_in w.id) (reconcile_objects w.id s.ready now db).objects)) [
            | inl more ↦ rw (fine, more, if◌then◌else◌) (poll_again-AreReleased _)
            | inr done ↦ rw (fine, done, if◌then◌else◌) (succeed-AreReleased now task _)
          ]
  ]

  abbrev AreReleasedSo : Evidence → Type 0
  AreReleasedSo (Evidence.stopped db) = AreReleased now task.id db
  AreReleasedSo (Evidence.continue db) = Unit
  AreReleasedSo (Evidence.crashed e db) = Unit

  judge_report-AreReleased :
      (status : JobStatus) (a : RestoreAttempt) (published : Bool) (db : Db)
      → AreReleasedSo (judge_report message now status task w a (published, db))
  judge_report-AreReleased status a false db = retry-AreReleased now task message 60 _ (omega arith)
  judge_report-AreReleased status a true db =
      elim (Bool-cases (action_required (restore_result_diagnostics a.id db))) [
        | inl bad ↦ rw (bad, if◌then◌else◌) (fail_restore_attempt-AreReleased _ db)
        | inr good ↦ rw (good, if◌then◌else◌) tt
      ]

  judge_job-AreReleased :
      (a : RestoreAttempt) (db : Db) (answer : Error ⊎ (JobStatus × ℕ × ℕ))
      → AreReleasedSo (judge_job aws message now task w a db answer)
  judge_job-AreReleased a db (inl e) = tt
  judge_job-AreReleased a db (inr (status, good, bad)) =
      elim (Bool-cases (is_complete_job status)) [
        | inr open_ ↦ elim (Bool-cases (is_lost_job status)) [
          | inl lost ↦ rw (open_, lost, if◌then◌else◌) (fail_restore_attempt-AreReleased _ _)
          | inr busy ↦
              rw (open_, busy, if◌then◌else◌) (retry-AreReleased now task message _ _ (omega arith))
        ]
        | inl done ↦ elim (Option-cases (aws.report a.id)) [
          | inl absent ↦ rw (done, absent, if◌then◌else◌) tt
          | inr (p, found) ↦
              let counted = with_progress a.id good bad (with_job_status w.id a.id status db) in
              let imported =
                import_completion_report a.id (select (in_wave w.id) counted.objects) p counted in
              rw (done, found, if◌then◌else◌)
                (judge_report-AreReleased status a imported.0 imported.1)
        ]
      ]

  judge_attempt-AreReleased :
      (job : ℕ) (a : RestoreAttempt) (known : Db)
      → AreReleasedSo (judge_attempt aws message now task w job (a, known))
  judge_attempt-AreReleased job a known = elim (Bool-cases (has_evidence a)) [
    | inl e ↦ rw (e, if◌then◌else◌) tt
    | inr e ↦ rw (e, if◌then◌else◌) (judge_job-AreReleased a _ (aws.describe job))
  ]

  judge_batch-AreReleased :
      (db : Db) (job : Option ℕ) → AreReleasedSo (judge_batch aws legacy message now task w db job)
  judge_batch-AreReleased db none = tt
  judge_batch-AreReleased db (some job) =
      judge_attempt-AreReleased job (restore_attempt_for_job legacy w db).0
        (restore_attempt_for_job legacy w db).1

  after_evidence-AreReleased :
      (e : Evidence)
      → AreReleasedSo e
      → AreReleasedBy now task.id (after_evidence aws legacy message reserve now task w e)
  unfolding after_evidence poll_availability
  after_evidence-AreReleased (Evidence.continue db) h =
      let ended = note_error aws w.id now (
        restored_pending_archives_from_head aws.head aws.elapsed w.id now
          (select (is_awaited w.id) db.objects) 1000 fresh_scan db) in
      settle-AreReleased ended.0 ended.1
  after_evidence-AreReleased (Evidence.stopped db) h = h
  after_evidence-AreReleased (Evidence.crashed e db) h = tt

-- The poll lets its task go, unless it raises.
pub poll_restore-AreReleasedBy :
    (aws : Aws) (legacy message reserve now : ℕ) (task : Task) (w : Wave) (db : Db)
    → AreReleasedBy now task.id (poll_restore aws legacy message reserve now task w db)
unfolding poll_restore batch_evidence finish_superseded_restore_poll
poll_restore-AreReleasedBy aws legacy message reserve now task w db =
    elim (Bool-cases (restore_reapproval_is_required w)) [
      | inl gated ↦
          rw (gated, if◌then◌else◌)
            (rewritten-AreReleased now task.id _ (λ t. (refl, refl, λ bad. cc bad)) db.tasks)
      | inr open_ ↦
          rw (open_, if◌then◌else◌)
            (after_evidence-AreReleased aws legacy message reserve now task w
              (batch_evidence aws legacy message now task w db)
              (judge_batch-AreReleased aws legacy message reserve now task w db w.batch_job_id))
    ]
