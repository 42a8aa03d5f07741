-- ===== src/Lane/Dispatch.antt =====
-- `ensure_transfer_task` and `reconcile_restored_transfer_lane` of app/real_worker.py. The priorities
-- are refreshed at `priority_now`, the source's clock; `now` is the wall clock.
pub mod Single
use copy_s3_to_oci.Base.{
  ℕ, ◌+◌, max, Bool, true, false, ◌&&◌, ◌||◌, not, Option, none, some, List, [], ◌∷◌, ◌++◌, ◌==◌,
  holds, ltb, leb, select, any, count, order_by, if◌then◌else◌,
}
use copy_s3_to_oci.Schema.{
  Task, TaskKind, QueueItem, Wave, WaveStatus, Policy, Source, Db, EventKind, is_lane, is_active,
  is_dispatchable, is_retry_wait, is_pending_restore, wave_open, source_open, source_of, new_task,
  log,
}
use copy_s3_to_oci.Lane.{lex, expiry_lex}
use copy_s3_to_oci.Lane.Admission.{enqueue_available_transfer_objects}
use copy_s3_to_oci.Lane.Refresh.{refresh_transfer_queue_priorities}

-- A dispatcher of the source that is queued or running, in an open wave of an open source.
abbrev pub lane_task : Db → ℕ → Task → Bool
lane_task db source t =
    (is_lane t.kind && is_active t.state)
    && holds (source_of db t.wave_id) source
    && (wave_open db t.wave_id && source_open db t.wave_id)

abbrev pub boundary : ℕ → QueueItem → ℕ
boundary now i = elim i.retry_at [ none ↦ now | some at ↦ at ]

-- The retry boundary, then descending score, expiry, age, id.
abbrev pub dispatch_before : ℕ → QueueItem → QueueItem → Bool
dispatch_before now i j = lex (boundary now i) (boundary now j) (
    lex j.priority_score i.priority_score (
      expiry_lex i.restore_expires_at j.restore_expires_at
        (lex i.available_at j.available_at (leb i.id j.id))))

abbrev pub is_open_work : Db → ℕ → QueueItem → Bool
is_open_work db source i =
    (i.source_id == source && is_dispatchable i.state)
    && (wave_open db i.wave_id && source_open db i.wave_id)

unfoldable pub open_work : ℕ → ℕ → Db → List QueueItem
open_work source now db = order_by (dispatch_before now) (select (is_open_work db source) db.items)

-- When the dispatcher is due: at once, or at the retry boundary of an item that waits for it.
abbrev pub due_at : ℕ → QueueItem → ℕ
due_at now i = if is_retry_wait i.state then max now (boundary now i) else now

abbrev pub add_dispatcher : ℕ → ℕ → List QueueItem → Db → Bool × Db
add_dispatcher source now [] db = (false, db)
add_dispatcher source now (i ∷ is) db = (
  true,
  log EventKind.continuous_transfer_dispatcher_queued (some source) (some i.wave_id) (record db {
    tasks =
        db.tasks ++ new_task db.next_id i.wave_id TaskKind.transfer_continuous (due_at now i) ∷ [];
    next_id = db.next_id + 1;
  }),
)

unfoldable pub ensure_transfer_task : ℕ → ℕ → ℕ → ℕ → Db → Bool × Db
unfolding refresh_transfer_queue_priorities open_work
ensure_transfer_task reserve source priority_now now db =
    if any (lane_task db source) db.tasks
    then (false, db)
    else let fresh = refresh_transfer_queue_priorities reserve source priority_now db in
      add_dispatcher source now (open_work source now fresh) fresh

-- The statuses of the waves that the reconciliation visits.
abbrev pub is_releasing : WaveStatus → Bool
is_releasing WaveStatus.restoring = true
is_releasing WaveStatus.restore_draining = true
is_releasing WaveStatus.restored = true
is_releasing WaveStatus.transfer_draining = true
is_releasing _ = false

abbrev pub as_available : Policy → Bool
as_available Policy.as_objects_available = true
as_available Policy.after_all_restored = false

abbrev pub start_lex : Option ℕ → Option ℕ → Bool → Bool
start_lex = expiry_lex

abbrev pub wave_before : Wave → Wave → Bool
wave_before v w =
    lex v.source_id w.source_id
      (start_lex v.planned_transfer_start_at w.planned_transfer_start_at (leb v.id w.id))

abbrev pub is_restoring_still : Db → ℕ → Bool
is_restoring_still db wave =
    any (λ o. holds o.wave_id wave && is_pending_restore o.state) db.objects

-- One wave: its restored objects enter the lane, where its policy lets them, and the lane gets a
-- dispatcher.
unfoldable pub release_wave : ℕ → (ℕ → ℕ) → ℕ → Wave → ℕ × Db → ℕ × Db
unfolding enqueue_available_transfer_objects ensure_transfer_task
release_wave reserve clock now w (n, db) =
    let admitted =
      if as_available w.transfer_release_policy || not (is_restoring_still db w.id)
      then (enqueue_available_transfer_objects reserve now w db).1
      else db in
    let (released, after) =
      ensure_transfer_task reserve w.source_id (clock w.source_id) now admitted in
    if released
    then (n + 1, log EventKind.restored_transfer_reconciled (some w.source_id) (some w.id) after)
    else (n, after)

pub release_all : ℕ → (ℕ → ℕ) → ℕ → List Wave → ℕ × Db → ℕ × Db
unfolding release_wave
release_all reserve clock now [] state = state
release_all reserve clock now (w ∷ ws) state =
    release_all reserve clock now ws (release_wave reserve clock now w state)

-- `clock` gives each source's time. The waves are those of the beginning of the pass.
unfoldable pub reconcile_restored_transfer_lane : ℕ → (ℕ → ℕ) → ℕ → Db → ℕ × Db
unfolding release_all
reconcile_restored_transfer_lane reserve clock now db =
    release_all reserve clock now
      (order_by wave_before (select (λ w. is_releasing w.status && source_open db w.id) db.waves))
      (0, db)
