-- ===== src/Restore/Poll.antt =====
-- `poll_restore` of app/real_worker.py.
pub mod Keeps
pub mod Evidenced
pub mod Released
use copy_s3_to_oci.Base.{
  ℕ, ◌+◌, ◌-◌, ◌*◌, min, Bool, true, false, ◌&&◌, ◌||◌, not, Option, none, some, List, [], ◌∷◌,
  ◌++◌, ◌==◌, ◌⊎◌, inl, inr, holds, ltb, leb, any, select, count, update_where, is_some, is_none,
  if◌then◌else◌,
}
use copy_s3_to_oci.Schema.{
  ObjectRecord, ObjectState, Wave, WaveStatus, Task, RestoreAttempt, JobStatus, Db, EventKind,
  is_pending_restore, is_restored, is_complete_job, is_lost_job, set_wave, set_attempt, get_wave,
  log,
}
use copy_s3_to_oci.Tasks.Worker.{succeed, retry}
use copy_s3_to_oci.Lane.Admission.{enqueue_available_transfer_objects}
use copy_s3_to_oci.Lane.Dispatch.{ensure_transfer_task}
use copy_s3_to_oci.Waves.Reapproval.{restore_reapproval_is_required, finish_superseded_restore_poll}
use copy_s3_to_oci.Worker.Errors.{Error}
use copy_s3_to_oci.Restore.Core.{
  is_archive, in_wave, is_awaited, is_early_release, restore_attempt_for_job, fail_restore_attempt,
  restore_availability_poll_delay_seconds,
}
use copy_s3_to_oci.Restore.Report.{
  Published, import_completion_report, restore_result_diagnostics, action_required,
}
use copy_s3_to_oci.Restore.Submit.{Step}
use copy_s3_to_oci.Restore.Heads.{
  Head, Scan, fresh_scan, is_ready_object, expiry_in, or_at, restored_pending_archives_from_head,
  persist_poll_progress,
}

-- The answers of AWS during one poll: DescribeJob (status, tasks succeeded, tasks failed) or its error,
-- the completion report or that reading it raises, and HeadObject.
pub record Aws : Type 0 where
  pub describe : ℕ → Error ⊎ (JobStatus × ℕ × ℕ)
  pub report : ℕ → Option Published
  pub head : List ℕ → Option ℕ → Head
  pub elapsed : ℕ → ℕ

-- How the batch evidence of a poll ends: the poll goes on, it has committed, or it raises.
pub data Evidence : Type 0 where
  continue : Db → Evidence
  stopped : Db → Evidence
  crashed : Error → Db → Evidence

abbrev pub polled_once : ℕ → WaveStatus → Wave → Wave
polled_once now status w = record w {
  status = status;
  last_poll_at = some now;
  poll_count = w.poll_count + 1;
}

abbrev pub with_job_status : ℕ → ℕ → JobStatus → Db → Db
with_job_status wave attempt status db =
    set_wave wave (λ w. record w { batch_job_status = some status })
      (set_attempt attempt (λ a. record a { job_status = some status }) db)

-- A job that is not complete. `message` stands for the texts.
abbrev pub unfinished_job : ℕ → ℕ → JobStatus → Task → Wave → RestoreAttempt → Db → Db
unfinished_job message now status task w a db =
    if is_lost_job status
    then fail_restore_attempt message now task w (record a { job_status = some status }) db
    else retry task message (some (min 1800 (300 + (w.poll_count + 1) * 60))) now
        (set_wave w.id (polled_once now WaveStatus.restoring) db)

-- RESTORE_REQUESTED and RESTORING.
abbrev pub is_requested : ObjectState → Bool
is_requested ObjectState.restore_requested = true
is_requested ObjectState.restoring = true
is_requested _ = false

abbrev pub is_acceptable : ℕ → ObjectRecord → Bool
is_acceptable wave o = in_wave wave o && is_archive o.storage_class && is_requested o.state

unfoldable pub accept_job : ℕ → Wave → RestoreAttempt → Db → Db
accept_job now w a db = log EventKind.restore_request_accepted (some w.source_id) (some w.id) (
    set_wave w.id (λ v. record v { status = WaveStatus.restore_request_accepted })
      (set_attempt a.id (λ b. record b { completed_at = some now; failure_summary = none })
        (record db {
          objects =
              update_where (is_acceptable w.id)
                (λ o. record o { state = ObjectState.restore_request_accepted }) db.objects;
        })))

abbrev pub judge_report : ℕ → ℕ → JobStatus → Task → Wave → RestoreAttempt → Bool × Db → Evidence
judge_report message now status task w a (false, db) = Evidence.stopped (
    retry task message (some 60) now
      (set_wave w.id (polled_once now WaveStatus.restore_requested) db))
judge_report message now status task w a (true, db) =
    if action_required (restore_result_diagnostics a.id db)
    then Evidence.stopped
        (fail_restore_attempt message now task w (record a { job_status = some status }) db)
    else Evidence.continue (accept_job now w a db)

abbrev pub with_progress : ℕ → ℕ → ℕ → Db → Db
with_progress attempt succeeded failed =
    set_attempt attempt (λ a. record a { succeeded_objects = succeeded; failed_objects = failed })

abbrev pub judge_job :
    Aws → ℕ → ℕ → Task → Wave → RestoreAttempt → Db → Error ⊎ (JobStatus × ℕ × ℕ) → Evidence
judge_job aws message now task w a db (inl e) = Evidence.crashed e db
judge_job aws message now task w a db (inr (status, succeeded, failed)) =
    let seen = with_job_status w.id a.id status db in
    if not (is_complete_job status)
    then Evidence.stopped (unfinished_job message now status task w a seen)
    else let counted = with_progress a.id succeeded failed seen in
      elim (aws.report a.id) [
        | none ↦ Evidence.crashed Error.runtime counted
        | some p ↦
            judge_report message now status task w a
              (import_completion_report a.id (select (in_wave w.id) counted.objects) p counted)
      ]

abbrev pub has_evidence : RestoreAttempt → Bool
has_evidence a = is_some a.completed_at && is_some a.report_manifest_key

abbrev pub judge_attempt : Aws → ℕ → ℕ → Task → Wave → ℕ → RestoreAttempt × Db → Evidence
judge_attempt aws message now task w job (a, known) =
    if has_evidence a
    then Evidence.continue known
    else let asked =
        set_attempt a.id (λ b. record b { batch_describe_requests = b.batch_describe_requests + 1 })
          known in
      judge_job aws message now task w a asked (aws.describe job)

abbrev pub judge_batch : Aws → ℕ → ℕ → ℕ → Task → Wave → Db → Option ℕ → Evidence
judge_batch aws legacy message now task w db none = Evidence.continue db
judge_batch aws legacy message now task w db (some job) =
    judge_attempt aws message now task w job (restore_attempt_for_job legacy w db)

-- The evidence of the wave's Batch job; `legacy` is the note of an adopted attempt.
unfoldable pub batch_evidence : Aws → ℕ → ℕ → ℕ → Task → Wave → Db → Evidence
unfolding restore_attempt_for_job fail_restore_attempt retry import_completion_report
    restore_result_diagnostics accept_job
batch_evidence aws legacy message now task w db =
    judge_batch aws legacy message now task w db w.batch_job_id

-- What the last reconciliation writes: of an object with evidence, or with no need of it; and of one
-- that is still awaited.
abbrev pub has_answer : List (ℕ × Option ℕ) → ObjectRecord → Bool
has_answer ready o = not (is_archive o.storage_class) || is_ready_object ready o

abbrev pub is_releasable : ObjectState → Bool
is_releasable ObjectState.restore_requested = true
is_releasable ObjectState.restore_request_accepted = true
is_releasable ObjectState.restoring = true
is_releasable ObjectState.wave_assigned = true
is_releasable _ = false

abbrev pub is_started : ObjectState → Bool
is_started ObjectState.restore_requested = true
is_started ObjectState.restore_request_accepted = true
is_started _ = false

abbrev pub release : List (ℕ × Option ℕ) → ℕ → ObjectRecord → ObjectRecord
release ready now o = record o {
  state = ObjectState.restored;
  restored_at = or_at o.restored_at now;
  restore_expires_at =
      if is_archive o.storage_class then expiry_in ready o.id else o.restore_expires_at;
}

abbrev pub reconciled : List (ℕ × Option ℕ) → ℕ → ObjectRecord → ObjectRecord
reconciled ready now o =
    if has_answer ready o
    then (if is_releasable o.state then release ready now o else o)
    else if is_started o.state
    then record o { state = ObjectState.restoring }
    else o

unfoldable pub reconcile_objects : ℕ → List (ℕ × Option ℕ) → ℕ → Db → Db
reconcile_objects wave ready now db = record db {
  objects = update_where (in_wave wave) (reconciled ready now) db.objects;
}

abbrev pub is_pending_in : ℕ → ObjectRecord → Bool
is_pending_in wave o = in_wave wave o && is_pending_restore o.state

abbrev pub is_restored_in : ℕ → ObjectRecord → Bool
is_restored_in wave o = in_wave wave o && is_restored o.state

-- When the current job was accepted.
abbrev pub accepted_at : ℕ → Wave → Db → Option ℕ
accepted_at legacy w db = elim w.batch_job_id [
  | none ↦ none
  | some job ↦ (restore_attempt_for_job legacy w db).0.completed_at
]

abbrev pub release_early : ℕ → ℕ → Wave → Db → Db
release_early reserve now w db =
    let (released, admitted) = enqueue_available_transfer_objects reserve now w db in
    if ltb 0 released
    then log EventKind.restore_objects_released (some w.source_id) (some w.id)
        (ensure_transfer_task reserve w.source_id now now admitted).1
    else admitted

-- Some objects are awaited: what is available may be released, and the poll comes back.
unfoldable pub poll_again : ℕ → ℕ → ℕ → ℕ → Task → Wave → Db → Db
unfolding restore_attempt_for_job
poll_again legacy message reserve now task w db =
    let polled = set_wave w.id (polled_once now WaveStatus.restoring) db in
    let partial = any (is_restored_in w.id) db.objects in
    retry task message
      (some (
        restore_availability_poll_delay_seconds (accepted_at legacy w db) now w.restore_tier partial
          w.transfer_release_policy (count (is_pending_in w.id) db.objects)))
      now
      (if is_early_release w.transfer_release_policy
        then release_early reserve now w polled
        else polled)

-- None is awaited: the wave is restored.
unfoldable pub finish_poll : ℕ → ℕ → Task → Wave → Db → Db
finish_poll reserve now task w db = succeed task none now (
    (ensure_transfer_task reserve w.source_id now now
      (enqueue_available_transfer_objects reserve now w (
        log EventKind.restore_available (some w.source_id) (some w.id)
          (set_wave w.id (polled_once now WaveStatus.restored) db))).1).1)

-- After the answers of HeadObject.
abbrev pub settle : ℕ → ℕ → ℕ → ℕ → Task → Wave → Scan × Db → Step
settle legacy message reserve now task w (s, db) = elim s.error [
  | some e ↦
      Step.raised e (
        set_wave w.id (λ v. record v { last_poll_at = some now; poll_count = v.poll_count + 1 }) db)
  | none ↦
      let reconciled_db = reconcile_objects w.id s.ready now db in
      if any (is_pending_in w.id) reconciled_db.objects
      then Step.done (poll_again legacy message reserve now task w reconciled_db)
      else Step.done (finish_poll reserve now task w reconciled_db)
]

-- An error of the requests keeps the metrics that they had, and the answers of the full batches.
abbrev pub note_error : Aws → ℕ → ℕ → Scan × Db → Scan × Db
note_error aws wave now (s, db) =
    if is_some s.error then persist_poll_progress aws.elapsed wave now [] s db else (s, db)

unfoldable pub poll_availability : Aws → ℕ → ℕ → ℕ → ℕ → Task → Wave → Db → Step
unfolding restored_pending_archives_from_head persist_poll_progress reconcile_objects poll_again
    finish_poll
poll_availability aws legacy message reserve now task w db =
    settle legacy message reserve now task w (
      note_error aws w.id now (
        restored_pending_archives_from_head aws.head aws.elapsed w.id now
          (select (is_awaited w.id) db.objects) 1000 fresh_scan db))

abbrev pub after_evidence : Aws → ℕ → ℕ → ℕ → ℕ → Task → Wave → Evidence → Step
unfolding poll_availability
after_evidence aws legacy message reserve now task w (Evidence.stopped db) = Step.done db
after_evidence aws legacy message reserve now task w (Evidence.crashed e db) = Step.raised e db
after_evidence aws legacy message reserve now task w (Evidence.continue db) =
    poll_availability aws legacy message reserve now task w db

-- The poll outside a simulation.
unfoldable pub poll_restore : Aws → ℕ → ℕ → ℕ → ℕ → Task → Wave → Db → Step
unfolding batch_evidence after_evidence restore_reapproval_is_required
    finish_superseded_restore_poll
poll_restore aws legacy message reserve now task w db =
    if restore_reapproval_is_required w
    then Step.done (finish_superseded_restore_poll message task w db)
    else after_evidence aws legacy message reserve now task w
        (batch_evidence aws legacy message now task w db)
