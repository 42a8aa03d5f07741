-- ===== src/Schema/Tables.antt =====
-- The tables, the event log, and the lookups `session.get` and `relationship` of app/main.py.
use copy_s3_to_oci.Base.{
  ℕ, ◌+◌, Bool, false, not, Option, none, some, List, [], ◌∷◌, ◌++◌, ◌==◌, find_by, is_none,
  update_where,
}
use copy_s3_to_oci.Schema.States.{TaskState, TaskKind, is_paused}
use copy_s3_to_oci.Schema.Rows.{
  Source, ObjectRecord, Wave, RestoreAttempt, Task, QueueItem, DispatchBatch, DiscoveryJob,
  PipelineRun, ReportRow, DiscoveryChange,
}

pub data EventKind : Type 0 where
  task_claimed task_succeeded task_retry_queued task_recovered task_failed_permanently : EventKind
  wave_paused wave_resumed wave_queued wave_deleted wave_created wave_reprocess_queued : EventKind
  deep_audit_queued restore_evidence_recovery_queued restore_reapproval_required : EventKind
  restore_poll_superseded discovery_job_claimed source_archived : EventKind
  continuous_transfer_items_ready continuous_transfer_leases_recovered : EventKind
  continuous_transfer_dispatch_decision continuous_transfer_dispatcher_queued : EventKind
  restored_transfer_reconciled : EventKind
  batch_restore_submitted restore_request_accepted restore_request_failed : EventKind
  restore_objects_released restore_available integrity_verification_completed : EventKind
  simulated_batch_restore_submitted : EventKind

pub record Event : Type 0 where
  pub kind : EventKind
  pub source_id : Option ℕ
  pub wave_id : Option ℕ

pub record Db : Type 0 where
  pub sources : List Source
  pub objects : List ObjectRecord
  pub waves : List Wave
  pub tasks : List Task
  pub items : List QueueItem
  pub attempts : List RestoreAttempt
  pub batches : List DispatchBatch
  pub jobs : List DiscoveryJob
  pub runs : List PipelineRun
  pub results : List ReportRow
  pub changes : List DiscoveryChange
  pub events : List Event
  pub next_id : ℕ

abbrev pub get_wave : ℕ → List Wave → Option Wave
get_wave k = find_by (λ w. w.id == k)

abbrev pub get_source : ℕ → List Source → Option Source
get_source k = find_by (λ s. s.id == k)

abbrev pub get_object : ℕ → List ObjectRecord → Option ObjectRecord
get_object k = find_by (λ o. o.id == k)

abbrev pub get_task : ℕ → List Task → Option Task
get_task k = find_by (λ t. t.id == k)

abbrev pub get_item : ℕ → List QueueItem → Option QueueItem
get_item k = find_by (λ i. i.id == k)

-- `Task.wave_id == Wave.id` joined, `Wave.status != "PAUSED"`.
abbrev pub wave_open : Db → ℕ → Bool
wave_open db k = elim (get_wave k db.waves) [ none ↦ false | some w ↦ not (is_paused w.status) ]

-- ... and further joined with its source, `Source.archived_at IS NULL`.
abbrev pub source_open : Db → ℕ → Bool
source_open db k = elim (get_wave k db.waves) [
  | none ↦ false
  | some w ↦ elim (get_source w.source_id db.sources) [
    | none ↦ false
    | some s ↦ is_none s.archived_at
  ]
]

-- `Wave.source_id` of the wave of a row.
abbrev pub source_of : Db → ℕ → Option ℕ
source_of db k = elim (get_wave k db.waves) [ none ↦ none | some w ↦ some w.source_id ]

-- A new task as `session.add(Task(...))` makes it, with the columns' defaults.
abbrev pub new_task : ℕ → ℕ → TaskKind → ℕ → Task
new_task key wave kind now = record {
  id = key;
  wave_id = wave;
  kind = kind;
  state = TaskState.ready;
  available_at = now;
  lease_expires_at = none;
  worker_id = none;
  attempts = 0;
  error = none;
}

abbrev pub add_task : ℕ → TaskKind → ℕ → Db → Db
add_task wave kind now db = record db {
  tasks = db.tasks ++ (new_task db.next_id wave kind now ∷ []);
  next_id = db.next_id + 1;
}

-- A new attempt as `session.add(RestoreAttempt(...))` makes it.
abbrev pub new_attempt : ℕ → Wave → Option ℕ → ℕ → Option ℕ → RestoreAttempt
new_attempt key w job expected failure = record {
  id = key;
  wave_id = w.id;
  job_id = job;
  job_status = w.batch_job_status;
  manifest_key = w.manifest_key;
  expected_objects = expected;
  succeeded_objects = 0;
  failed_objects = 0;
  report_manifest_key = none;
  failure_summary = failure;
  batch_describe_requests = 0;
  completion_report_list_requests = 0;
  completion_report_get_requests = 0;
  completed_at = none;
}

abbrev pub set_attempt : ℕ → (RestoreAttempt → RestoreAttempt) → Db → Db
set_attempt k f db = record db { attempts = update_where (λ a. a.id == k) f db.attempts }

abbrev pub log : EventKind → Option ℕ → Option ℕ → Db → Db
log kind source wave db = record db {
  events = db.events ++ (record { kind = kind; source_id = source; wave_id = wave } ∷ []);
}

abbrev pub set_wave : ℕ → (Wave → Wave) → Db → Db
set_wave k f db = record db { waves = update_where (λ w. w.id == k) f db.waves }

abbrev pub set_task : ℕ → (Task → Task) → Db → Db
set_task k f db = record db { tasks = update_where (λ t. t.id == k) f db.tasks }
