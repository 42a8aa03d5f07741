-- ===== src/Waves/Cancel/Pause.antt =====
-- What a pause stops, and what a resume after it starts.
use copy_s3_to_oci.Base.{
  ℕ, ◌≡◌, refl, false, ◌&&◌, not, none, some, List, [], ◌∷◌, ◌++◌, ◌==◌, arith, All,
  All-update_where_any, select-none, select, update_where,
}
use copy_s3_to_oci.Http.{ok}
use copy_s3_to_oci.Schema.{
  Task, TaskKind, QueueItem, Wave, new_task, log, EventKind, WaveStatus, Db, get_wave, is_paused,
}
use copy_s3_to_oci.Waves.Cancel.{
  active_of, waiting_of, cancelled_of, cancel_active_wave_tasks, pause_wave, resume_wave,
  cancelled_task, cancelled_item, pause_open, paused, resume_at, has_restored, reactivated,
  with_status,
}

-- Nothing of the wave is active any more, and every other row is as before.
pub record IsStopped (wave : ℕ) (db after : Db) : Type 0 where
  pub tasks : All (λ t. active_of wave t ≡ false) after.tasks
  pub items : All (λ i. waiting_of wave i ≡ false) after.items
  pub other_tasks :
      select (λ t. not (t.wave_id == wave)) after.tasks
      ≡ select (λ t. not (t.wave_id == wave)) db.tasks
  pub other_items :
      select (λ i. not (i.wave_id == wave)) after.items
      ≡ select (λ i. not (i.wave_id == wave)) db.items
  pub objects : after.objects ≡ db.objects

other_tasks_lem :
    (wave reason : ℕ) (ts : List Task)
    → select
        (λ t. not (t.wave_id == wave))
        (update_where (active_of wave) (cancelled_task reason) ts)
      ≡ select (λ t. not (t.wave_id == wave)) ts
other_tasks_lem wave reason [] = refl
other_tasks_lem wave reason (t ∷ ts) = ground (arith, other_tasks_lem wave reason ts)

other_items_lem :
    (wave reason : ℕ) (is : List QueueItem)
    → select
        (λ i. not (i.wave_id == wave))
        (update_where (waiting_of wave) (cancelled_item reason) is)
      ≡ select (λ i. not (i.wave_id == wave)) is
other_items_lem wave reason [] = refl
other_items_lem wave reason (i ∷ is) = ground (arith, other_items_lem wave reason is)

pub cancel-IsStopped :
    (wave reason : ℕ) (db : Db) → IsStopped wave db (cancel_active_wave_tasks wave reason db).1
unfolding cancel_active_wave_tasks
cancel-IsStopped wave reason db = record {
  tasks = All-update_where_any (active_of wave) _ (λ t h. ground arith) (λ t h. h) db.tasks;
  items = All-update_where_any (waiting_of wave) _ (λ i h. ground arith) (λ i h. h) db.items;
  other_tasks = other_tasks_lem wave reason db.tasks;
  other_items = other_items_lem wave reason db.items;
  objects = refl;
}

pub set_wave-hit :
    (key : ℕ) (f : Wave → Wave) (ws : List Wave) {w : Wave}
    → ((v : Wave) → (f v).id ≡ v.id)
    → get_wave key ws ≡ some w
    → get_wave key (update_where (λ v. v.id == key) f ws) ≡ some (f w)
set_wave-hit key f [] same e = cc
set_wave-hit key f (v ∷ ws) {w} same e = ground (arith, same v, set_wave-hit key f ws {w = w} same)

pause_open-IsStopped :
    (key reason : ℕ) (w : Wave) (db : Db) → IsStopped key db (pause_open key reason w db)
unfolding cancel_active_wave_tasks
pause_open-IsStopped key reason w db =
    let c = cancel-IsStopped key reason db in
    record {
      tasks = c.tasks;
      items = c.items;
      other_tasks = c.other_tasks;
      other_items = c.other_items;
      objects = c.objects;
    }

-- Pausing a wave that is not paused succeeds and leaves it no active task and no waiting item
-- in the lane; the tasks and items of other waves and all objects are as before, and the wave
-- is paused.
pub pause_wave-IsStopped :
    (key reason : ℕ) (db : Db) (w : Wave)
    → get_wave key db.waves ≡ some w
    → is_paused w.status ≡ false
    → (after : Db) × (pause_wave key reason db ≡ ok after)
      × IsStopped key db after
      × (get_wave key after.waves ≡ some (paused w))
unfolding pause_wave
pause_wave-IsStopped key reason db w e runs = (
  pause_open key reason w db,
  ground arith,
  pause_open-IsStopped key reason w db,
  set_wave-hit key paused db.waves (λ v. refl) e,
)

no_items_left :
    (key reason : ℕ) (is : List QueueItem)
    → All (λ i. (i.wave_id == key) ≡ false) is
    → All
        (λ i. cancelled_of key i ≡ false)
        (update_where (waiting_of key) (cancelled_item reason) is)
no_items_left key reason [] h = tt
no_items_left key reason (i ∷ is) h = ground (arith, no_items_left key reason is h.1)

-- The state after a resume that finds neither items nor an active task.
abbrev resubmitted : ℕ → ℕ → ℕ → Wave → Db → Db
resubmitted key why now w db = log EventKind.wave_resumed (some w.source_id) (some key) (
    resume_at key now [] none (record db {
      items =
          update_where (λ i. cancelled_of key i && has_restored db.objects i) (reactivated why)
            db.items;
    }))

resubmitted_wave :
    (key now : ℕ) (w : Wave) (db : Db)
    → get_wave key db.waves ≡ some (paused w)
    → get_wave key
        (update_where (λ v. v.id == key) (with_status WaveStatus.ready_for_restore) db.waves)
      ≡ some (record w { status = WaveStatus.ready_for_restore })
resubmitted_wave key now w db found =
    set_wave-hit key (with_status WaveStatus.ready_for_restore) db.waves (λ v. refl) found

-- Resuming a wave that was paused with no item in the lane sets it ready for restore and queues
-- a new SUBMIT_BATCH_RESTORE, whatever task of the wave the pause had cancelled.
pub pause-resume-submits :
    (key reason why now : ℕ) (db : Db) (w : Wave)
    → get_wave key db.waves ≡ some w
    → is_paused w.status ≡ false
    → All (λ i. (i.wave_id == key) ≡ false) db.items
    → (paused_db after : Db) × (pause_wave key reason db ≡ ok paused_db)
      × (resume_wave key why now paused_db ≡ ok after)
      × (get_wave key after.waves ≡ some (record w { status = WaveStatus.ready_for_restore }))
      × (after.tasks
          ≡ paused_db.tasks ++ new_task db.next_id key TaskKind.submit_batch_restore now ∷ [])
unfolding pause_wave resume_wave cancel_active_wave_tasks
pause-resume-submits key reason why now db w e runs none_queued =
    let p : Db = pause_open key reason w db in
    let found : get_wave key p.waves ≡ some (paused w) =
      set_wave-hit key paused db.waves (λ v. refl) e in
    let idle : select (active_of key) p.tasks ≡ [] =
      select-none (active_of key) p.tasks (cancel-IsStopped key reason db).tasks in
    let bare : select (cancelled_of key) p.items ≡ [] =
      select-none (cancelled_of key) p.items (no_items_left key reason db.items none_queued) in
    (
      p,
      resubmitted key why now w p,
      ground arith,
      rw (found, resume_wave) (rw (bare, idle) refl),
      resubmitted_wave key now w p found,
      refl,
    )
