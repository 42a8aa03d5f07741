-- ===== src/Schema/States.antt =====
-- The enumerations of app/main.py, and the sets of states by which queries filter.
use copy_s3_to_oci.Base.{Bool, true, false}

pub data ObjectState : Type 0 where
  discovered wave_assigned restore_requested restore_request_accepted : ObjectState
  restoring restored transferring transferred verified failed : ObjectState

pub data TaskState : Type 0 where
  ready running succeeded failed cancelled : TaskState

pub data QueueState : Type 0 where
  available ready leased multipart_resume transferred : QueueState
  retry_wait expired reapproval_required cancelled : QueueState

pub data TaskKind : Type 0 where
  submit_batch_restore poll_restore transfer_continuous verify_wave : TaskKind

pub data WaveStatus : Type 0 where
  draft planned restore_scheduled ready_for_restore restore_requested : WaveStatus
  restore_request_accepted restoring restore_draining : WaveStatus
  restored transferring transfer_draining transferred transferred_with_errors : WaveStatus
  completed verified verification_queued verifying verification_failed : WaveStatus
  paused failed restore_request_failed restore_reapproval_required : WaveStatus

-- The statuses of an S3 Batch job that the code tells apart; `active` stands for any other.
pub data JobStatus : Type 0 where
  preparing active complete completed failed cancelled canceled : JobStatus

-- `task_status` of a row of a completion report; `other` stands for any but these two.
pub data RowStatus : Type 0 where
  pending succeeded other : RowStatus

pub data RunStatus : Type 0 where
  planned scheduled in_progress needs_attention completed historical : RunStatus

pub data Tier : Type 0 where
  bulk standard expedited : Tier

pub data ChangeType : Type 0 where
  modified updated : ChangeType

pub data Band : Type 0 where
  normal elevated urgent critical : Band

pub data Policy : Type 0 where
  as_objects_available after_all_restored : Policy

-- `Task.state == READY`, `Task.state == RUNNING`, `Task.state.in_([READY, RUNNING])`.
abbrev pub is_ready : TaskState → Bool
is_ready TaskState.ready = true
is_ready _ = false

abbrev pub is_running : TaskState → Bool
is_running TaskState.running = true
is_running _ = false

abbrev pub is_active : TaskState → Bool
is_active TaskState.ready = true
is_active TaskState.running = true
is_active _ = false

-- The items that a dispatcher may claim: `READY`, `RETRY_WAIT`, `MULTIPART_RESUME`.
abbrev pub is_dispatchable : QueueState → Bool
is_dispatchable QueueState.ready = true
is_dispatchable QueueState.retry_wait = true
is_dispatchable QueueState.multipart_resume = true
is_dispatchable _ = false

-- The items that wait: the dispatchable ones and `AVAILABLE`.
abbrev pub is_waiting : QueueState → Bool
is_waiting QueueState.available = true
is_waiting QueueState.ready = true
is_waiting QueueState.retry_wait = true
is_waiting QueueState.multipart_resume = true
is_waiting _ = false

abbrev pub is_leased : QueueState → Bool
is_leased QueueState.leased = true
is_leased _ = false

abbrev pub is_retry_wait : QueueState → Bool
is_retry_wait QueueState.retry_wait = true
is_retry_wait _ = false

abbrev pub is_cancelled_item : QueueState → Bool
is_cancelled_item QueueState.cancelled = true
is_cancelled_item _ = false

abbrev pub is_lane : TaskKind → Bool
is_lane TaskKind.transfer_continuous = true
is_lane _ = false

abbrev pub is_poll : TaskKind → Bool
is_poll TaskKind.poll_restore = true
is_poll _ = false

abbrev pub is_verify : TaskKind → Bool
is_verify TaskKind.verify_wave = true
is_verify _ = false

abbrev pub is_paused : WaveStatus → Bool
is_paused WaveStatus.paused = true
is_paused _ = false

abbrev pub is_planned : WaveStatus → Bool
is_planned WaveStatus.planned = true
is_planned _ = false

abbrev pub is_reapproval : WaveStatus → Bool
is_reapproval WaveStatus.restore_reapproval_required = true
is_reapproval _ = false

abbrev pub is_restored : ObjectState → Bool
is_restored ObjectState.restored = true
is_restored _ = false

abbrev pub is_transferring : ObjectState → Bool
is_transferring ObjectState.transferring = true
is_transferring _ = false

abbrev pub is_discovered : ObjectState → Bool
is_discovered ObjectState.discovered = true
is_discovered _ = false

abbrev pub is_wave_assigned : ObjectState → Bool
is_wave_assigned ObjectState.wave_assigned = true
is_wave_assigned _ = false

-- `TRANSFERRED` and `VERIFIED`: the objects that need no restored copy any more.
abbrev pub is_delivered : ObjectState → Bool
is_delivered ObjectState.transferred = true
is_delivered ObjectState.verified = true
is_delivered _ = false

-- `RESTORED`, `TRANSFERRING`, `TRANSFERRED`, `VERIFIED`: what a wave's availability counts.
abbrev pub is_available : ObjectState → Bool
is_available ObjectState.restored = true
is_available ObjectState.transferring = true
is_available ObjectState.transferred = true
is_available ObjectState.verified = true
is_available _ = false

-- The states that `reconcile_restored_transfer_lane` counts as a pending restore.
abbrev pub is_pending_restore : ObjectState → Bool
is_pending_restore ObjectState.restore_requested = true
is_pending_restore ObjectState.restore_request_accepted = true
is_pending_restore ObjectState.restoring = true
is_pending_restore _ = false

-- The states that `reprocess_wave` resets.
abbrev pub is_reset : ObjectState → Bool
is_reset ObjectState.restore_requested = true
is_reset ObjectState.restore_request_accepted = true
is_reset ObjectState.restoring = true
is_reset ObjectState.restored = true
is_reset ObjectState.transferring = true
is_reset _ = false

-- The statuses that an archived source's waves keep.
abbrev pub is_terminal : WaveStatus → Bool
is_terminal WaveStatus.completed = true
is_terminal WaveStatus.verified = true
is_terminal WaveStatus.transferred = true
is_terminal WaveStatus.transferred_with_errors = true
is_terminal WaveStatus.verification_failed = true
is_terminal _ = false

-- The statuses from which a deep audit may be asked for.
abbrev pub is_auditable : WaveStatus → Bool
is_auditable WaveStatus.completed = true
is_auditable WaveStatus.transferred = true
is_auditable WaveStatus.transferred_with_errors = true
is_auditable WaveStatus.verification_failed = true
is_auditable _ = false

-- `COMPLETED` and `HISTORICAL` runs.
abbrev pub is_closed : RunStatus → Bool
is_closed RunStatus.completed = true
is_closed RunStatus.historical = true
is_closed _ = false

abbrev pub is_completed_run : RunStatus → Bool
is_completed_run RunStatus.completed = true
is_completed_run _ = false

-- The sets of statuses by which a pipeline run is judged.
abbrev pub has_succeeded : WaveStatus → Bool
has_succeeded WaveStatus.completed = true
has_succeeded WaveStatus.verified = true
has_succeeded WaveStatus.transferred = true
has_succeeded _ = false

abbrev pub has_failed : WaveStatus → Bool
has_failed WaveStatus.failed = true
has_failed WaveStatus.transferred_with_errors = true
has_failed WaveStatus.restore_request_failed = true
has_failed WaveStatus.verification_failed = true
has_failed _ = false

abbrev pub is_in_progress : WaveStatus → Bool
is_in_progress WaveStatus.restoring = true
is_in_progress WaveStatus.restored = true
is_in_progress WaveStatus.transferring = true
is_in_progress _ = false

-- `job["Status"] in {"Complete", "Completed"}`.
abbrev pub is_complete_job : JobStatus → Bool
is_complete_job JobStatus.complete = true
is_complete_job JobStatus.completed = true
is_complete_job _ = false

-- `job["Status"] in {"Failed", "Cancelled", "Canceled"}`.
abbrev pub is_lost_job : JobStatus → Bool
is_lost_job JobStatus.failed = true
is_lost_job JobStatus.cancelled = true
is_lost_job JobStatus.canceled = true
is_lost_job _ = false
