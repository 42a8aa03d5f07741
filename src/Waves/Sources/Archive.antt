-- ===== src/Waves/Sources/Archive.antt =====
-- The rows of a source that is archived or deleted.
use copy_s3_to_oci.Base.{
  ℕ, ◌≡◌, false, List, [], ◌∷◌, ◌==◌, arith, All, All-update_where, All-update_where_any, select,
  update_where,
}
use copy_s3_to_oci.Schema.{Task, Wave, QueueItem, Db}
use copy_s3_to_oci.Waves.Cancel.{
  active_of, waiting_of, cancel_active_wave_tasks, cancelled_task, cancelled_item,
}
use copy_s3_to_oci.Waves.Cancel.Pause.{cancel-IsStopped}
use copy_s3_to_oci.Waves.Sources.{
  deactivate_waves, deactivate_archived_source_work, active_job, cancelled_job, open_run,
  historical_run,
}

-- Of the waves `ws`, none has an active task or a waiting item.
abbrev pub AllStopped : List Wave → Db → Type 0
AllStopped ws db =
    All
      (λ w.
        All (λ t. active_of w.id t ≡ false) db.tasks
        × All (λ i. waiting_of w.id i ≡ false) db.items)
      ws

stays_stopped :
    (v reason : ℕ) (k : ℕ) (ts : List Task)
    → All (λ t. active_of v t ≡ false) ts
    → All (λ t. active_of v t ≡ false) (update_where (active_of k) (cancelled_task reason) ts)
stays_stopped v reason k ts =
    All-update_where (active_of k) (cancelled_task reason) (λ t h hit. ground arith) (λ t h miss. h)
      ts

stays_empty :
    (v reason : ℕ) (k : ℕ) (is : List QueueItem)
    → All (λ i. waiting_of v i ≡ false) is
    → All (λ i. waiting_of v i ≡ false) (update_where (waiting_of k) (cancelled_item reason) is)
stays_empty v reason k is =
    All-update_where (waiting_of k) (cancelled_item reason) (λ t h hit. ground arith)
      (λ t h miss. h) is

abbrev Stopped : ℕ → Db → Type 0
Stopped v db =
    All (λ t. active_of v t ≡ false) db.tasks × All (λ i. waiting_of v i ≡ false) db.items

-- The loop leaves a stopped wave stopped, and stops each wave that it visits.
deactivate_waves-keeps :
    (v reason : ℕ) (ws : List Wave) (n : ℕ) (db : Db)
    → Stopped v db
    → Stopped v (deactivate_waves reason ws (n, db)).1
unfolding deactivate_waves cancel_active_wave_tasks
deactivate_waves-keeps v reason [] n db h = h
deactivate_waves-keeps v reason (w ∷ ws) n db h =
    deactivate_waves-keeps v reason ws _ _
      (stays_stopped v reason w.id db.tasks h.0, stays_empty v reason w.id db.items h.1)

deactivate_waves-AllStopped :
    (reason : ℕ) (ws : List Wave) (n : ℕ) (db : Db)
    → AllStopped ws (deactivate_waves reason ws (n, db)).1
unfolding deactivate_waves cancel_active_wave_tasks
deactivate_waves-AllStopped reason [] n db = tt
deactivate_waves-AllStopped reason (w ∷ ws) n db =
    let c = cancel-IsStopped w.id reason db in
    (
      deactivate_waves-keeps w.id reason ws _ _ (c.tasks, c.items),
      deactivate_waves-AllStopped reason ws _ _,
    )

-- Nothing that a worker or the planner could take up is left for the source.
pub record IsDeactivated (source : ℕ) (owned : List Wave) (after : Db) : Type 0 where
  pub waves : AllStopped owned after
  pub jobs : All (λ j. active_job source j ≡ false) after.jobs
  pub runs : All (λ r. open_run source r ≡ false) after.runs

-- Deactivating an archived source leaves no active task and no waiting item in any of its
-- waves, no active discovery job and no open pipeline run.
pub deactivate-IsDeactivated :
    (source reason now : ℕ) (db : Db)
    → IsDeactivated source
        (select (λ w. w.source_id == source) db.waves)
        (deactivate_archived_source_work source reason now db).1
unfolding deactivate_archived_source_work
deactivate-IsDeactivated source reason now db =
    let owned = select (λ w. w.source_id == source) db.waves in
    let swept = (deactivate_waves reason owned (0, db)).1 in
    record {
      waves = deactivate_waves-AllStopped reason owned 0 db;
      jobs =
          All-update_where_any (active_job source) (cancelled_job reason) (λ j h. ground arith)
            (λ j h. h) swept.jobs;
      runs =
          All-update_where_any (open_run source) (historical_run now) (λ r h. ground arith)
            (λ r h. h) swept.runs;
    }
