-- ===== src/Samples.antt =====
-- Rows and a small database for the tests: source 1 with the waves 10 and 11, source 2 with 20.
use copy_s3_to_oci.Base.{ℕ, Bool, true, false, Option, none, some, [], ◌∷◌}
use copy_s3_to_oci.Schema.{
  Source, ObjectRecord, Wave, Task, QueueItem, Db, ObjectState, TaskState, QueueState, TaskKind,
  WaveStatus, Policy, Band, Tier, PipelineRun, RunStatus,
}

abbrev pub source : ℕ → Source
source key = record {
  id = key;
  bucket = 1;
  prefix = [];
  prefixes = [];
  business_priority = 999;
  aws_region = 1;
  aws_bucket_region = none;
  archived_at = none;
}

abbrev pub wave : ℕ → ℕ → WaveStatus → Wave
wave key source status = record {
  id = key;
  source_id = source;
  max_bytes = 1000;
  restore_days = 7;
  transfer_release_policy = Policy.as_objects_available;
  status = status;
  batch_job_id = none;
  batch_job_status = none;
  manifest_key = none;
  last_poll_at = none;
  poll_count = 0;
  availability_head_requests = 0;
  availability_poll_ms = 0;
  availability_throttle_retries = 0;
  last_availability_poll_objects = 0;
  last_availability_poll_ms = 0;
  pipeline_run_id = none;
  restore_tier = Tier.bulk;
  predicted_transfer_seconds = 0;
  planned_transfer_start_at = none;
  simulation_transfer_clock_held = false;
  restore_reapproval_required = false;
  restore_reapproval_reason = none;
  restore_reapproval_detected_at = none;
}

abbrev pub object : ℕ → ℕ → ℕ → Option ℕ → ObjectState → ObjectRecord
object key source size wave state = record {
  id = key;
  source_id = source;
  is_current_revision = true;
  object_key = key ∷ [];
  version_id = none;
  size_bytes = size;
  etag = none;
  storage_class = none;
  last_modified = none;
  source_checksum = none;
  checksum_algorithm = none;
  restore_requested_at = none;
  restore_attempt_id = none;
  restored_at = none;
  restore_expires_at = none;
  planned_transfer_ms = 0;
  transferred_at = none;
  transfer_progress_bytes = 0;
  transfer_rate_kbps = 0;
  state = state;
  wave_id = wave;
}

abbrev pub task : ℕ → ℕ → TaskKind → TaskState → Option ℕ → Option ℕ → Task
task key wave kind state lease worker = record {
  id = key;
  wave_id = wave;
  kind = kind;
  state = state;
  available_at = 0;
  lease_expires_at = lease;
  worker_id = worker;
  attempts = 0;
  error = none;
}

abbrev pub item : ℕ → ℕ → ℕ → ℕ → ℕ → ℕ → QueueState → QueueItem
item key source wave object size score state = record {
  id = key;
  source_id = source;
  wave_id = wave;
  object_id = object;
  size_bytes = size;
  available_at = 0;
  restore_expires_at = none;
  predicted_transfer_ms = 0;
  priority_score = score;
  priority_band = Band.normal;
  priority_details = record {
    deadline = 0;
    wave_availability = 0;
    fairness = 0;
    business_priority = 0;
    small_object = 0;
    slack = none;
    total = 0;
  };
  state = state;
  lease_token = none;
  lease_owner = none;
  lease_expires_at = none;
  attempts = 0;
  retry_at = none;
  dispatch_batch_id = none;
  preemption_cooldown_until = none;
  preemption_successor_item_id = none;
  preemption_requested_at = none;
  preemption_count = 0;
  decision_reason = 0;
}

-- Task 1 polls, task 2 is a dispatcher of source 1 under a live lease, task 3 another that waits.
abbrev pub busy : Db
busy = record {
  sources = source 1 ∷ source 2 ∷ [];
  objects =
      object 1 1 40 (some 10) ObjectState.restored
      ∷ object 2 1 70 (some 10) ObjectState.restoring
      ∷ object 3 1 500 none ObjectState.discovered
      ∷ [];
  waves =
      wave 10 1 WaveStatus.restoring
      ∷ wave 11 1 WaveStatus.planned
      ∷ wave 20 2 WaveStatus.transfer_draining
      ∷ [];
  tasks =
      task 1 10 TaskKind.poll_restore TaskState.ready none none
      ∷ task 2 10 TaskKind.transfer_continuous TaskState.running (some 500) (some 7)
      ∷ task 3 11 TaskKind.transfer_continuous TaskState.ready none none
      ∷ task 4 20 TaskKind.transfer_continuous TaskState.succeeded none (some 7)
      ∷ [];
  items = item 1 1 10 1 40 95 QueueState.ready ∷ item 2 1 10 2 70 40 QueueState.ready ∷ [];
  attempts = [];
  batches = [];
  jobs = [];
  runs = [];
  results = [];
  changes = [];
  events = [];
  next_id = 100;
}

abbrev pub unlocked : ℕ → Bool
unlocked key = false

abbrev pub any_kind : TaskKind → Bool
any_kind kind = true

-- A planned wave 11 of source 1 with one object, and nothing under way.
abbrev pub idle : Db
idle = record {
  sources = source 1 ∷ source 2 ∷ [];
  objects =
      object 1 1 40 (some 11) ObjectState.wave_assigned
      ∷ object 2 1 70 none ObjectState.discovered
      ∷ [];
  waves = wave 11 1 WaveStatus.planned ∷ [];
  tasks = [];
  items = [];
  attempts = [];
  batches = [];
  jobs = [];
  runs = [];
  results = [];
  changes = [];
  events = [];
  next_id = 100;
}

abbrev pub run : PipelineRun
run = record {
  id = 1;
  source_id = 1;
  status = RunStatus.scheduled;
  restore_safety_seconds = 600;
  restore_tier = Tier.bulk;
  scheduled_restores = true;
  selection_prefix = [];
  completed_at = none;
}
