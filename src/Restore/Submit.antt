-- ===== src/Restore/Submit.antt =====
-- `submit_restore`, `submit_restore_simulated`, `validate_restore_preflight` and
-- `batch_manifest_fields` of app/real_worker.py.
pub mod Complete
pub mod Refused
pub mod Attribution
use copy_s3_to_oci.Base.{
  ℕ, ◌+◌, Bool, true, false, ◌&&◌, ◌||◌, not, Option, none, some, List, [], ◌∷◌, ◌++◌, ◌==◌, holds,
  any, select, update_where, length, map, is_some, if◌then◌else◌, ◌⊎◌, inl, inr,
}
use copy_s3_to_oci.Schema.{
  ObjectRecord, ObjectState, Wave, WaveStatus, Task, TaskKind, Source, RestoreAttempt, ReportRow,
  JobStatus, Db, EventKind, is_wave_assigned, set_wave, set_attempt, new_attempt, log,
}
use copy_s3_to_oci.Tasks.Worker.{succeed}
use copy_s3_to_oci.Lane.Admission.{enqueue_available_transfer_objects}
use copy_s3_to_oci.Lane.Dispatch.{ensure_transfer_task}
use copy_s3_to_oci.Worker.Errors.{Error}
use copy_s3_to_oci.Restore.Core.{archive_objects, in_wave}
use copy_s3_to_oci.Restore.Quote.{quote}
use copy_s3_to_oci.Restore.Report.{new_outcome}

-- How a step of the worker ends: it has committed, or it raises, and what the session holds then is
-- committed with the handling of the error.
pub data Step : Type 0 where
  done : Db → Step
  raised : Error → Db → Step

abbrev pub db_of : Step → Db
db_of (Step.done db) = db
db_of (Step.raised error db) = db

-- A column of the CSV manifest, and a row of it.
pub data Field : Type 0 where
  bucket key version_id : Field

unfoldable pub batch_manifest_fields : Bool → List Field
batch_manifest_fields has_versions =
    Field.bucket ∷ Field.key ∷ (if has_versions then Field.version_id ∷ [] else [])

pub record ManifestRow : Type 0 where
  pub bucket : ℕ
  pub key : List ℕ
  pub version : Option (Option ℕ)

abbrev pub has_version : ObjectRecord → Bool
has_version o = is_some o.version_id

abbrev pub row_of : ℕ → Bool → ObjectRecord → ManifestRow
unfolding quote
row_of from has_versions o = record {
  bucket = from;
  key = quote o.object_key;
  version = if has_versions then some o.version_id else none;
}

unfoldable pub manifest : ℕ → List ObjectRecord → List ManifestRow
unfolding row_of
manifest from archives = map (row_of from (any has_version archives)) archives

-- The simulator's answers: whether the source has its execution context, the job and its status for the
-- wave and the task, and the error of the reading of the virtual clock, if one is made and fails.
pub record Simulator : Type 0 where
  pub complete : Bool
  pub submit : ℕ → ℕ → Error ⊎ (ℕ × JobStatus)
  pub clock : Option Error

-- The answers to one submission: of AWS, or of the simulator in the runtime of a simulation. The token of
-- `create_job` is made of the wave and the task. `source_region` may fail with the clients too.
pub record Aws : Type 0 where
  pub simulation : Option Simulator
  pub configured : Bool
  pub source_region : Error ⊎ ℕ
  pub control_region : Error ⊎ ℕ
  pub put_manifest : List ManifestRow → Option Error
  pub create_job : List Field → ℕ → ℕ → Error ⊎ ℕ

-- `raise RuntimeError(...) from error`: of the error that was caught, only the text is kept.
abbrev pub wrapped : Error → Error
wrapped e = Error.runtime

-- `validate_restore_preflight`: a region that cannot be read raises before it is noted.
abbrev pub note_region : Source → ℕ → Db → Db
note_region s region db = record db {
  sources =
      update_where (λ r. r.id == s.id) (λ r. record r { aws_bucket_region = some region })
        db.sources;
}

abbrev pub region_error : Source → ℕ → ℕ → Option Error
region_error s found control =
    if s.aws_region == found && control == found then none else some Error.runtime

unfoldable pub validate_restore_preflight : Aws → Source → Db → Option Error × Db
validate_restore_preflight aws s db = elim aws.source_region [
  | inl e ↦ (some e, db)
  | inr found ↦ elim aws.control_region [
    | inl e ↦ (some e, db)
    | inr control ↦ (region_error s found control, note_region s found db)
  ]
]

abbrev pub open_attempt : Wave → ℕ → Db → Db
open_attempt w expected db = record db {
  attempts =
      db.attempts
      ++ record (new_attempt db.next_id w none expected none) {
        job_status = none;
        manifest_key = none;
      }
        ∷ [];
  next_id = db.next_id + 1;
}

-- The loop over the archived objects: each is requested, and has a row that waits for evidence.
unfoldable pub request_objects : ℕ → ℕ → List ObjectRecord → Db → Db
request_objects now attempt [] db = db
request_objects now attempt (o ∷ os) db = request_objects now attempt os (record db {
  objects =
      update_where (λ p. p.id == o.id)
        (λ p. record p {
          state = ObjectState.restore_requested;
          restore_requested_at = some now;
          restore_attempt_id = some attempt;
        })
        db.objects;
  results = db.results ++ new_outcome db.next_id attempt o.id ∷ [];
  next_id = db.next_id + 1;
})

-- What an accepted job writes. The manifest's key is that of the attempt.
abbrev pub with_job : JobStatus → ℕ → Wave → ℕ → Db → Db
with_job status attempt w job db =
    set_wave w.id
      (λ v. record v {
        batch_job_id = some job;
        batch_job_status = some status;
        manifest_key = some attempt;
        status = WaveStatus.restore_requested;
      })
      (set_attempt attempt
        (λ a. record a { job_id = some job; job_status = some status; manifest_key = some attempt })
        db)

unfoldable pub submitted :
    EventKind → JobStatus → ℕ → ℕ → Task → Wave → List ObjectRecord → ℕ → Db → Db
unfolding request_objects succeed
submitted kind status now attempt task w archives job db =
    succeed task (some TaskKind.poll_restore) now (
      log kind (some w.source_id) (some w.id)
        (request_objects now attempt archives (with_job status attempt w job db)))

-- A wave with nothing archived is available as it is.
abbrev pub is_assigned_to : ℕ → ObjectRecord → Bool
is_assigned_to wave o = in_wave wave o && is_wave_assigned o.state

abbrev pub available_wave : ℕ → Wave → Db → Db
available_wave now w db =
    set_wave w.id (λ v. record v { status = WaveStatus.restored })
      (record db {
        objects =
            update_where (is_assigned_to w.id)
              (λ o. record o { state = ObjectState.restored; restored_at = some now }) db.objects;
      })

unfoldable pub skip_restore : ℕ → ℕ → Task → Wave → Db → Db
unfolding enqueue_available_transfer_objects ensure_transfer_task succeed
skip_restore reserve now task w db =
    let admitted = (enqueue_available_transfer_objects reserve now w (available_wave now w db)).1 in
    succeed task none now (ensure_transfer_task reserve w.source_id now now admitted).1

abbrev pub after_create : ℕ → ℕ → Task → Wave → List ObjectRecord → Db → Error ⊎ ℕ → Step
unfolding submitted
after_create now attempt task w archives db (inl e) = Step.raised (wrapped e) db
after_create now attempt task w archives db (inr job) = Step.done (
    submitted EventKind.batch_restore_submitted JobStatus.preparing now attempt task w archives job
      db)

abbrev pub after_put : Aws → ℕ → ℕ → Task → Wave → List ObjectRecord → Db → Option Error → Step
unfolding batch_manifest_fields after_create
after_put aws now attempt task w archives db (some e) = Step.raised (wrapped e) db
after_put aws now attempt task w archives db none =
    after_create now attempt task w archives db
      (aws.create_job (batch_manifest_fields (any has_version archives)) w.id task.id)

abbrev pub after_preflight :
    Aws → ℕ → Task → Wave → Source → List ObjectRecord → Option Error × Db → Step
unfolding manifest after_put
after_preflight aws now task w s archives (some e, checked) = Step.raised (wrapped e) checked
after_preflight aws now task w s archives (none, checked) =
    after_put aws now checked.next_id task w archives (open_attempt w (length archives) checked)
      (aws.put_manifest (manifest s.bucket archives))

unfoldable pub submit_to_aws : Aws → ℕ → Task → Wave → Source → List ObjectRecord → Db → Step
unfolding validate_restore_preflight after_preflight
submit_to_aws aws now task w s archives db =
    if aws.configured
    then after_preflight aws now task w s archives (validate_restore_preflight aws s db)
    else Step.raised Error.runtime db

-- The virtual instant of the first request is left out, but for the reading of its clock.
abbrev pub accept_simulated :
    Option Error → ℕ → ℕ → Task → Wave → List ObjectRecord → ℕ → JobStatus → Db → Step
unfolding submitted
accept_simulated (some e) now attempt task w archives job status db =
    Step.raised e (with_job status attempt w job db)
accept_simulated none now attempt task w archives job status db = Step.done (
    submitted EventKind.simulated_batch_restore_submitted status now attempt task w archives job db)

abbrev pub after_submit :
    Simulator → ℕ → ℕ → Task → Wave → List ObjectRecord → Db → Error ⊎ (ℕ × JobStatus) → Step
unfolding accept_simulated
after_submit port now attempt task w archives db (inl e) = Step.raised e db
after_submit port now attempt task w archives db (inr (job, status)) =
    accept_simulated port.clock now attempt task w archives job status db

unfoldable pub submit_restore_simulated :
    Simulator → ℕ → Task → Wave → List ObjectRecord → Db → Step
unfolding after_submit
submit_restore_simulated port now task w archives db =
    if port.complete
    then after_submit port now db.next_id task w archives (open_attempt w (length archives) db)
        (port.submit w.id task.id)
    else Step.raised Error.runtime db

abbrev pub submit_somewhere :
    Aws → Option Simulator → ℕ → Task → Wave → Source → List ObjectRecord → Db → Step
unfolding submit_to_aws submit_restore_simulated
submit_somewhere aws (some port) now task w s archives db =
    submit_restore_simulated port now task w archives db
submit_somewhere aws none now task w s archives db = submit_to_aws aws now task w s archives db

unfoldable pub submit_archives : Aws → ℕ → ℕ → Task → Wave → Source → Db → List ObjectRecord → Step
unfolding skip_restore submit_somewhere
submit_archives aws reserve now task w s db [] = Step.done (skip_restore reserve now task w db)
submit_archives aws reserve now task w s db (o ∷ os) =
    submit_somewhere aws aws.simulation now task w s (o ∷ os) db

unfoldable pub submit_restore : Aws → ℕ → ℕ → Task → Wave → Source → Db → Step
unfolding archive_objects submit_archives
submit_restore aws reserve now task w s db =
    submit_archives aws reserve now task w s db (archive_objects w.id db)
