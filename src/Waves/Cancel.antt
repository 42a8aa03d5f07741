-- ===== src/Waves/Cancel.antt =====
-- `cancel_active_wave_tasks`, `pause_wave` and `resume_wave` of app/main.py. `reason` stands for
-- the text "Cancelled: ..." that a cancelled row keeps.
pub mod Pause
use copy_s3_to_oci.Base.{
  ℕ, ◌+◌, Bool, true, false, ◌&&◌, Option, none, some, List, [], ◌∷◌, ◌==◌, leb, select,
  update_where, count, if◌then◌else◌,
}
use copy_s3_to_oci.Http.{Reply, ok, HttpError, raise_if, or_404, ◌>>=◌, ◌>>◌}
use copy_s3_to_oci.Schema.{
  Task, TaskState, TaskKind, QueueItem, QueueState, Wave, WaveStatus, ObjectRecord, Db, EventKind,
  is_active, is_waiting, is_cancelled_item, is_paused, is_restored, get_wave, get_object, set_wave,
  add_task, log,
}

abbrev pub active_of : ℕ → Task → Bool
active_of wave t = (t.wave_id == wave) && is_active t.state

abbrev pub waiting_of : ℕ → QueueItem → Bool
waiting_of wave i = (i.wave_id == wave) && is_waiting i.state

abbrev pub cancelled_task : ℕ → Task → Task
cancelled_task reason t = record t {
  state = TaskState.cancelled;
  worker_id = none;
  lease_expires_at = none;
  error = some reason;
}

abbrev pub cancelled_item : ℕ → QueueItem → QueueItem
cancelled_item reason i = record i {
  state = QueueState.cancelled;
  lease_token = none;
  lease_owner = none;
  lease_expires_at = none;
  decision_reason = reason;
}

unfoldable pub cancel_active_wave_tasks : ℕ → ℕ → Db → ℕ × Db
cancel_active_wave_tasks wave reason db = (
  count (active_of wave) db.tasks + count (waiting_of wave) db.items,
  record db {
    tasks = update_where (active_of wave) (cancelled_task reason) db.tasks;
    items = update_where (waiting_of wave) (cancelled_item reason) db.items;
  },
)

abbrev pub paused : Wave → Wave
paused w = record w { status = WaveStatus.paused }

abbrev pub pause_open : ℕ → ℕ → Wave → Db → Db
unfolding cancel_active_wave_tasks
pause_open key reason w db =
    log EventKind.wave_paused (some w.source_id) (some key)
      (set_wave key paused (cancel_active_wave_tasks key reason db).1)

unfoldable pub pause_wave : ℕ → ℕ → Db → Reply Db
unfolding cancel_active_wave_tasks
pause_wave key reason db = do
  wave ← or_404 (get_wave key db.waves)
  ok (if is_paused wave.status then db else pause_open key reason wave db)

-- The active task with the greatest id.
abbrev pub newest_task : Option Task → List Task → Option Task
newest_task best [] = best
newest_task none (t ∷ ts) = newest_task (some t) ts
newest_task (some b) (t ∷ ts) = newest_task (some (if leb b.id t.id then t else b)) ts

abbrev pub status_by_task : TaskKind → WaveStatus
status_by_task TaskKind.submit_batch_restore = WaveStatus.ready_for_restore
status_by_task TaskKind.poll_restore = WaveStatus.restoring
status_by_task TaskKind.transfer_continuous = WaveStatus.transfer_draining
status_by_task TaskKind.verify_wave = WaveStatus.verification_queued

abbrev pub cancelled_of : ℕ → QueueItem → Bool
cancelled_of wave i = (i.wave_id == wave) && is_cancelled_item i.state

abbrev pub has_restored : List ObjectRecord → QueueItem → Bool
has_restored objects i = elim (get_object i.object_id objects) [
  | none ↦ false
  | some o ↦ is_restored o.state
]

abbrev pub reactivated : ℕ → QueueItem → QueueItem
reactivated reason i = record i { state = QueueState.ready; decision_reason = reason }

abbrev pub with_status : WaveStatus → Wave → Wave
with_status status w = record w { status = status }

-- Where the resumed wave goes on: at its cancelled items, at its active task, or at a new restore.
abbrev pub resume_at : ℕ → ℕ → List QueueItem → Option Task → Db → Db
resume_at key now (i ∷ is) active db = set_wave key (with_status WaveStatus.transfer_draining) db
resume_at key now [] (some t) db = set_wave key (with_status (status_by_task t.kind)) db
resume_at key now [] none db =
    add_task key TaskKind.submit_batch_restore now
      (set_wave key (with_status WaveStatus.ready_for_restore) db)

unfoldable pub resume_wave : ℕ → ℕ → ℕ → Db → Reply Db
resume_wave key reason now db = do
  wave ← or_404 (get_wave key db.waves)
  raise_if (if is_paused wave.status then false else true) HttpError.conflict
  ok (
      log EventKind.wave_resumed (some wave.source_id) (some key) (
        resume_at key now (select (cancelled_of key) db.items)
          (newest_task none (select (active_of key) db.tasks))
          (record db {
            items =
                update_where (λ i. cancelled_of key i && has_restored db.objects i)
                  (reactivated reason) db.items;
          })))
