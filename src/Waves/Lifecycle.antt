-- ===== src/Waves/Lifecycle.antt =====
-- `verify_wave`, `queue_planned_wave`, `queue_all_planned_waves`, `reprocess_wave` and
-- `delete_wave` of app/main.py.
pub mod Reprocess
pub mod Delete
use copy_s3_to_oci.Base.{
  ℕ, ◌+◌, Bool, true, false, ◌&&◌, ◌||◌, not, Option, none, some, List, [], ◌∷◌, ◌++◌, ◌==◌, holds,
  ltb, leb, select, update_where, any, count, is_some, if◌then◌else◌, order_by, length,
}
use copy_s3_to_oci.Http.{Reply, ok, HttpError, raise_if, or_404, ◌>>=◌, ◌>>◌}
use copy_s3_to_oci.Schema.{
  Task, TaskState, TaskKind, QueueItem, QueueState, Wave, WaveStatus, ObjectRecord, ObjectState,
  RestoreAttempt, Source, Db, EventKind, is_active, is_verify, is_paused, is_planned, is_auditable,
  is_reset, is_wave_assigned, get_wave, get_source, set_wave, add_task, log, new_attempt,
}
use copy_s3_to_oci.Waves.Cancel.{active_of, with_status}

-- `confirmed` is the operator's acknowledgement of the full reread.
unfoldable pub verify_wave : ℕ → Bool → ℕ → Db → Reply Db
verify_wave key confirmed now db = do
  raise_if (not confirmed) HttpError.unprocessable
  wave ← or_404 (get_wave key db.waves)
  raise_if (not (is_auditable wave.status)) HttpError.conflict
  raise_if (any (λ t. active_of key t && is_verify t.kind) db.tasks) HttpError.conflict
  ok (
      log EventKind.deep_audit_queued (some wave.source_id) (some key) (
        add_task key TaskKind.verify_wave now
          (set_wave key (with_status WaveStatus.verification_queued) db)))

-- What queueing does to one wave: the status, its task, the event.
abbrev pub enqueue_wave : ℕ → Wave → Db → Db
enqueue_wave now w db = log EventKind.wave_queued (some w.source_id) (some w.id) (
    add_task w.id TaskKind.submit_batch_restore now
      (set_wave w.id (with_status WaveStatus.ready_for_restore) db))

unfoldable pub queue_planned_wave : ℕ → ℕ → Db → Reply Db
queue_planned_wave key now db = do
  wave ← or_404 (get_wave key db.waves)
  raise_if (not (is_planned wave.status)) HttpError.conflict
  ok (enqueue_wave now wave db)

abbrev wave_before : Wave → Wave → Bool
wave_before v w = leb v.id w.id

pub enqueue_all : ℕ → List Wave → Db → Db
enqueue_all now [] db = db
enqueue_all now (w ∷ ws) db = enqueue_all now ws (enqueue_wave now w db)

-- `active_source_or_409`.
unfoldable pub active_source_or_409 : ℕ → Db → Reply Source
active_source_or_409 key db = do
  source ← or_404 (get_source key db.sources)
  raise_if (is_some source.archived_at) HttpError.conflict
  ok source

-- The reply is the number of waves queued.
unfoldable pub queue_all_planned_waves : ℕ → ℕ → Db → Reply (ℕ × Db)
unfolding enqueue_all active_source_or_409
queue_all_planned_waves source now db = do
  found ← active_source_or_409 source db
  let waves =
      order_by wave_before (select (λ w. (w.source_id == source) && is_planned w.status) db.waves)
  ok (length waves, enqueue_all now waves db)

-- The Batch job of the wave that no attempt records yet is kept as an attempt. `note` is the text
-- "Historic Batch job retained while starting a new restore attempt".
abbrev pub keep_attempt : ℕ → Wave → Option ℕ → Db → Db
keep_attempt note w none db = db
keep_attempt note w (some job) db =
    if any (λ a. holds a.job_id job) db.attempts then db else record db {
      attempts =
          db.attempts
          ++ (new_attempt db.next_id w (some job) (count (λ o. holds o.wave_id w.id) db.objects)
                (some note)
              ∷ []);
      next_id = db.next_id + 1;
    }

abbrev pub to_reset : ℕ → ObjectRecord → Bool
to_reset wave o = holds o.wave_id wave && is_reset o.state

abbrev pub reset_object : ObjectRecord → ObjectRecord
reset_object o = record o { state = ObjectState.wave_assigned; restored_at = none }

abbrev pub reset_wave : Wave → Wave
reset_wave w = record w {
  status = WaveStatus.ready_for_restore;
  batch_job_id = none;
  batch_job_status = none;
  manifest_key = none;
  last_poll_at = none;
  poll_count = 0;
  availability_head_requests = 0;
  availability_poll_ms = 0;
  availability_throttle_retries = 0;
  last_availability_poll_objects = 0;
  last_availability_poll_ms = 0;
  restore_reapproval_required = false;
  restore_reapproval_reason = none;
  restore_reapproval_detected_at = none;
}

abbrev pub reprocessed : ℕ → ℕ → Wave → Db → Db
reprocessed note now w db =
    let kept = keep_attempt note w w.batch_job_id db in
    log EventKind.wave_reprocess_queued (some w.source_id) (some w.id) (
      add_task w.id TaskKind.submit_batch_restore now (
        set_wave w.id reset_wave (record kept {
          objects = update_where (to_reset w.id) reset_object kept.objects;
          items = select (λ i. not (i.wave_id == w.id)) kept.items;
        })))

-- `approved` is `payload and payload.approve_new_restore`.
unfoldable pub reprocess_wave : ℕ → Bool → ℕ → ℕ → Db → Reply Db
reprocess_wave key approved note now db = do
  wave ← or_404 (get_wave key db.waves)
  raise_if (wave.restore_reapproval_required && not approved) HttpError.conflict
  raise_if (is_paused wave.status) HttpError.conflict
  raise_if (any (active_of key) db.tasks) HttpError.conflict
  ok (reprocessed note now wave db)

abbrev pub executed_task : ℕ → Task → Bool
executed_task wave t = (t.wave_id == wave) && ltb 0 t.attempts

abbrev pub progressed_object : ℕ → ObjectRecord → Bool
progressed_object wave o = holds o.wave_id wave && not (is_wave_assigned o.state)

abbrev pub returned_object : ObjectRecord → ObjectRecord
returned_object o = record o { wave_id = none; state = ObjectState.discovered }

abbrev pub deleted : Wave → Db → Db
deleted w db = log EventKind.wave_deleted (some w.source_id) none (record db {
  objects = update_where (λ o. holds o.wave_id w.id) returned_object db.objects;
  events = select (λ e. not (holds e.wave_id w.id)) db.events;
  tasks = select (λ t. not (t.wave_id == w.id)) db.tasks;
  items = select (λ i. not (i.wave_id == w.id)) db.items;
  waves = select (λ v. not (v.id == w.id)) db.waves;
})

-- The reply is the number of objects that went back to discovery.
unfoldable pub delete_wave : ℕ → Db → Reply (ℕ × Db)
delete_wave key db = do
  wave ← or_404 (get_wave key db.waves)
  raise_if (any (executed_task key) db.tasks || any (progressed_object key) db.objects)
      HttpError.conflict
  ok (count (λ o. holds o.wave_id key) db.objects, deleted wave db)
