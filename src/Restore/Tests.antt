-- ===== src/Restore/Tests.antt =====
-- A wave of one archived object and one that is not, from its submission to its last poll.
use copy_s3_to_oci.Base.{
  ◌+◌, ◌*◌, ◌≡◌, refl, true, false, not, none, some, [], ◌∷◌, inl, inr, ◌⊎◌, ℕ, length, count,
  every, any, Pairs, map,
}
use copy_s3_to_oci.Schema.{
  ObjectState, TaskState, TaskKind, WaveStatus, JobStatus, RowStatus, EventKind, Wave, Db,
}
use copy_s3_to_oci.Samples.{source, wave, object, task, idle}
use copy_s3_to_oci.Restore.Core.{is_unsubmitted, archive_objects}
use copy_s3_to_oci.Restore.Quote.{quote}
use copy_s3_to_oci.Restore.Report.{
  Line, restore_result_diagnostics, evidence_of, effective_accepted, action_required,
}
use copy_s3_to_oci.Restore.Report.Evidence.{restore_result_diagnostics-accepts, is_accepted_row}
use copy_s3_to_oci.Restore.Submit.{Step, db_of, submit_restore, submitted, manifest}
use copy_s3_to_oci.Restore.Submit.Refused.{IsRefused, submit_restore-IsRefused}
use copy_s3_to_oci.Worker.Errors.{Error}
use copy_s3_to_oci.Restore.Submit.Complete.{submit_restore-leaves_none, submitted-awaits, awaits}
use copy_s3_to_oci.Restore.Heads.{Head}
use copy_s3_to_oci.Restore.Poll.{poll_restore}
use copy_s3_to_oci.Restore.Poll.Evidenced.{IsEvidenced, poll_restore-IsEvidenced}
use copy_s3_to_oci.Restore.Submit as Submission
use copy_s3_to_oci.Restore.Poll as Polling

abbrev cold : Db
cold = record idle {
  objects =
      record (object 1 1 40 (some 11) ObjectState.wave_assigned) { storage_class = some 1 }
      ∷ object 2 1 70 (some 11) ObjectState.wave_assigned
      ∷ [];
  tasks = task 50 11 TaskKind.submit_batch_restore TaskState.running (some 500) (some 7) ∷ [];
}

abbrev submission : Submission.Aws
submission = record {
  simulation = none;
  configured = true;
  source_region = inr 1;
  control_region = inr 1;
  put_manifest = λ rows. none;
  create_job = λ fields w t. inr 900;
}

abbrev frozen : Wave
frozen = wave 11 1 WaveStatus.ready_for_restore

abbrev after_submission : Db
unfolding submit_restore
after_submission = db_of (
    submit_restore submission 0 100
      (task 50 11 TaskKind.submit_batch_restore TaskState.running (some 500) (some 7)) frozen
      (source 1) cold)

submits :
    (map (λ o. o.state) after_submission.objects
      ≡ ObjectState.restore_requested ∷ ObjectState.wave_assigned ∷ [])
    × (map (λ t. t.kind) after_submission.tasks
        ≡ TaskKind.submit_batch_restore ∷ TaskKind.poll_restore ∷ [])
    × (map (λ w. w.batch_job_id) after_submission.waves ≡ some 900 ∷ [])
unfolding after_submission
submits = (refl, refl, refl)

submit_restore-leaves_none_example : any (is_unsubmitted 11) after_submission.objects ≡ false
unfolding after_submission
submit_restore-leaves_none_example =
    submit_restore-leaves_none submission 0 100
      (task 50 11 TaskKind.submit_batch_restore TaskState.running (some 500) (some 7)) frozen
      (source 1) cold refl

awaits_each :
    count
      (awaits 100)
      (submitted EventKind.batch_restore_submitted JobStatus.preparing 100 100
        (task 50 11 TaskKind.submit_batch_restore TaskState.running (some 500) (some 7))
        frozen
        (archive_objects 11 cold)
        900
        cold).results
    ≡ count (awaits 100) cold.results + length (archive_objects 11 cold)
awaits_each =
    submitted-awaits EventKind.batch_restore_submitted JobStatus.preparing 100 100
      (task 50 11 TaskKind.submit_batch_restore TaskState.running (some 500) (some 7)) frozen
      (archive_objects 11 cold) 900 cold

-- AWS throttles the creation of the job.
abbrev throttled : Submission.Aws
throttled = record submission { create_job = λ fields w t. inl (Error.client (some 503) (some 2)) }

abbrev after_refusal : Db
unfolding submit_restore
after_refusal = db_of (
    submit_restore throttled 0 100
      (task 50 11 TaskKind.submit_batch_restore TaskState.running (some 500) (some 7)) frozen
      (source 1) cold)

refuses :
    submit_restore throttled 0 100
      (task 50 11 TaskKind.submit_batch_restore TaskState.running (some 500) (some 7))
      frozen
      (source 1)
      cold
    ≡ Step.raised Error.runtime after_refusal
unfolding submit_restore after_refusal
refuses = refl

submit_restore-IsRefused_example :
    IsRefused throttled
      (task 50 11 TaskKind.submit_batch_restore TaskState.running (some 500) (some 7))
      frozen
      cold
      Error.runtime
      after_refusal
submit_restore-IsRefused_example =
    submit_restore-IsRefused throttled 0 100
      (task 50 11 TaskKind.submit_batch_restore TaskState.running (some 500) (some 7)) frozen
      (source 1) cold refuses

-- The simulator takes the submission, and does not.
abbrev simulated : Error ⊎ (ℕ × JobStatus) → Submission.Aws
simulated answer = record submission {
  simulation = some (record { complete = true; submit = λ w t. answer; clock = none });
}

accepts_simulated :
    map
      (λ o. o.state)
      (db_of (
        submit_restore
          (simulated (inr (901, JobStatus.preparing)))
          0
          100
          (task 50 11 TaskKind.submit_batch_restore TaskState.running (some 500) (some 7))
          frozen
          (source 1)
          cold)).objects
    ≡ ObjectState.restore_requested ∷ ObjectState.wave_assigned ∷ []
unfolding submit_restore
accepts_simulated = refl

-- The report says that the object was already being restored, and HeadObject that it is there.
abbrev line : Line
line = record {
  fields = 7;
  key = 1 ∷ [];
  version_id = none;
  task_status = RowStatus.other;
  http_status = some 409;
  error_code = some 1;
  error_message = none;
}

abbrev answers : Polling.Aws
answers = record {
  describe = λ job. inr (JobStatus.complete, 1, 0);
  report = λ attempt. some (record { pages = 1; manifest = some 5; files = (line ∷ []) ∷ [] });
  head = λ key version. Head.restored (some 9000);
  elapsed = λ requests. 20 * requests;
}

abbrev requested : Wave
requested = record frozen { batch_job_id = some 900; status = WaveStatus.restore_requested }

abbrev after_poll : Db
unfolding poll_restore after_submission
after_poll = db_of (
    poll_restore answers 1 2 0 200
      (task 103 11 TaskKind.poll_restore TaskState.running (some 500) (some 7)) requested
      after_submission)

polls :
    (map (λ o. o.state) after_poll.objects ≡ ObjectState.restored ∷ ObjectState.restored ∷ [])
    × (map (λ o. o.restore_expires_at) after_poll.objects ≡ some 9000 ∷ none ∷ [])
    × (map (λ w. w.status) after_poll.waves ≡ WaveStatus.restored ∷ [])
unfolding after_poll
polls = (refl, refl, refl)

poll_restore-IsEvidenced_example :
    Pairs
      (IsEvidenced answers.head 11 after_submission.objects)
      after_submission.objects
      after_poll.objects
unfolding after_poll after_submission
poll_restore-IsEvidenced_example =
    poll_restore-IsEvidenced answers 1 2 0 200
      (task 103 11 TaskKind.poll_restore TaskState.running (some 500) (some 7)) requested
      after_submission (refl, (refl, tt))

-- The keys "a b" and "a%20b", of which the second is what the first is quoted to.
abbrev twins : Db
twins = record idle {
  objects =
      record (object 1 1 40 (some 11) ObjectState.wave_assigned) {
        storage_class = some 1;
        object_key = 97 ∷ 32 ∷ 98 ∷ [];
      }
      ∷ record (object 2 1 70 (some 11) ObjectState.wave_assigned) {
        storage_class = some 1;
        object_key = 97 ∷ 37 ∷ 50 ∷ 48 ∷ 98 ∷ [];
      }
      ∷ [];
}

two : length (archive_objects 11 twins) ≡ 2
unfolding archive_objects
two = refl

quoted : quote (97 ∷ 32 ∷ 98 ∷ []) ≡ 97 ∷ 37 ∷ 50 ∷ 48 ∷ 98 ∷ []
unfolding quote
quoted = refl

restore_result_diagnostics-accepts_example :
    let d = restore_result_diagnostics 100 after_submission in
    let rows = evidence_of 100 after_submission in
    (effective_accepted d + d.unexpected_failed + d.pending_evidence ≡ length rows)
    × (action_required d ≡ not (every (λ r. is_accepted_row r.task_status r.error_code) rows))
restore_result_diagnostics-accepts_example = restore_result_diagnostics-accepts 100 after_submission
