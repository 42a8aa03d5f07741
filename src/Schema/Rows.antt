-- ===== src/Schema/Rows.antt =====
-- The rows of the tables of app/main.py.
use copy_s3_to_oci.Base.{ℕ, Bool, Option, List}
use copy_s3_to_oci.Schema.States.{
  ObjectState, TaskState, QueueState, TaskKind, WaveStatus, Policy, RunStatus, Tier, Band,
  ChangeType, JobStatus, RowStatus,
}

pub record Source : Type 0 where
  pub id : ℕ
  pub bucket : ℕ
  pub prefix : List ℕ
  pub prefixes : List (List ℕ)
  pub business_priority : ℕ
  pub aws_region : ℕ
  pub aws_bucket_region : Option ℕ
  pub archived_at : Option ℕ

pub record ObjectRecord : Type 0 where
  pub id : ℕ
  pub source_id : ℕ
  pub is_current_revision : Bool
  pub object_key : List ℕ
  pub version_id : Option ℕ
  pub size_bytes : ℕ
  pub etag : Option ℕ
  pub storage_class : Option ℕ
  pub last_modified : Option ℕ
  pub source_checksum : Option ℕ
  pub checksum_algorithm : Option ℕ
  pub restore_requested_at : Option ℕ
  pub restore_attempt_id : Option ℕ
  pub restored_at : Option ℕ
  pub restore_expires_at : Option ℕ
  pub planned_transfer_ms : ℕ
  pub transferred_at : Option ℕ
  pub transfer_progress_bytes : ℕ
  pub transfer_rate_kbps : ℕ
  pub state : ObjectState
  pub wave_id : Option ℕ

pub record Wave : Type 0 where
  pub id : ℕ
  pub source_id : ℕ
  pub max_bytes : ℕ
  pub restore_days : ℕ
  pub transfer_release_policy : Policy
  pub status : WaveStatus
  pub batch_job_id : Option ℕ
  pub batch_job_status : Option JobStatus
  pub manifest_key : Option ℕ
  pub last_poll_at : Option ℕ
  pub poll_count : ℕ
  pub availability_head_requests : ℕ
  pub availability_poll_ms : ℕ
  pub availability_throttle_retries : ℕ
  pub last_availability_poll_objects : ℕ
  pub last_availability_poll_ms : ℕ
  pub pipeline_run_id : Option ℕ
  pub restore_tier : Tier
  pub predicted_transfer_seconds : ℕ
  pub planned_transfer_start_at : Option ℕ
  pub simulation_transfer_clock_held : Bool
  pub restore_reapproval_required : Bool
  pub restore_reapproval_reason : Option ℕ
  pub restore_reapproval_detected_at : Option ℕ

pub record RestoreAttempt : Type 0 where
  pub id : ℕ
  pub wave_id : ℕ
  pub job_id : Option ℕ
  pub job_status : Option JobStatus
  pub manifest_key : Option ℕ
  pub expected_objects : ℕ
  pub succeeded_objects : ℕ
  pub failed_objects : ℕ
  pub report_manifest_key : Option ℕ
  pub failure_summary : Option ℕ
  pub batch_describe_requests : ℕ
  pub completion_report_list_requests : ℕ
  pub completion_report_get_requests : ℕ
  pub completed_at : Option ℕ

pub record Task : Type 0 where
  pub id : ℕ
  pub wave_id : ℕ
  pub kind : TaskKind
  pub state : TaskState
  pub available_at : ℕ
  pub lease_expires_at : Option ℕ
  pub worker_id : Option ℕ
  pub attempts : ℕ
  pub error : Option ℕ

-- What `priority_details_json` holds. `slack` is `slack_seconds`, as the seconds missing and the
-- seconds left, of which one is 0; it is absent where there is no deadline.
pub record Details : Type 0 where
  pub deadline : ℕ
  pub wave_availability : ℕ
  pub fairness : ℕ
  pub business_priority : ℕ
  pub small_object : ℕ
  pub slack : Option (ℕ × ℕ)
  pub total : ℕ

pub record QueueItem : Type 0 where
  pub id : ℕ
  pub source_id : ℕ
  pub wave_id : ℕ
  pub object_id : ℕ
  pub size_bytes : ℕ
  pub available_at : ℕ
  pub restore_expires_at : Option ℕ
  pub predicted_transfer_ms : ℕ
  pub priority_score : ℕ
  pub priority_band : Band
  pub priority_details : Details
  pub state : QueueState
  pub lease_token : Option ℕ
  pub lease_owner : Option ℕ
  pub lease_expires_at : Option ℕ
  pub attempts : ℕ
  pub retry_at : Option ℕ
  pub dispatch_batch_id : Option ℕ
  pub preemption_cooldown_until : Option ℕ
  pub preemption_successor_item_id : Option ℕ
  pub preemption_requested_at : Option ℕ
  pub preemption_count : ℕ
  pub decision_reason : ℕ

pub record DispatchBatch : Type 0 where
  pub id : ℕ
  pub source_id : ℕ
  pub wave_id : ℕ
  pub task_id : ℕ
  pub priority_band : Band
  pub priority_score : ℕ
  pub reason : ℕ
  pub object_limit : ℕ
  pub byte_limit : ℕ
  pub object_count : ℕ
  pub bytes_planned : ℕ

pub record DiscoveryJob : Type 0 where
  pub id : ℕ
  pub source_id : ℕ
  pub state : TaskState
  pub available_at : ℕ
  pub lease_expires_at : Option ℕ
  pub worker_id : Option ℕ
  pub attempts : ℕ
  pub error : Option ℕ
  pub objects_new : ℕ
  pub objects_updated : ℕ
  pub objects_changed : ℕ

pub record PipelineRun : Type 0 where
  pub id : ℕ
  pub source_id : ℕ
  pub status : RunStatus
  pub restore_safety_seconds : ℕ
  pub restore_tier : Tier
  pub scheduled_restores : Bool
  pub selection_prefix : List ℕ
  pub completed_at : Option ℕ

-- RestoreObjectResult: what a completion report says of one object.
pub record ReportRow : Type 0 where
  pub id : ℕ
  pub attempt_id : ℕ
  pub object_id : ℕ
  pub task_status : RowStatus
  pub http_status : Option ℕ
  pub error_code : Option ℕ
  pub error_message : Option ℕ

pub record DiscoveryChange : Type 0 where
  pub id : ℕ
  pub source_id : ℕ
  pub discovery_job_id : Option ℕ
  pub object_key : List ℕ
  pub change_type : ChangeType
  pub previous_size_bytes : ℕ
  pub current_size_bytes : ℕ
  pub previous_etag : Option ℕ
  pub current_etag : Option ℕ
  pub previous_version_id : Option ℕ
  pub current_version_id : Option ℕ
  pub previous_last_modified : Option ℕ
  pub current_last_modified : Option ℕ
