-- ===== src/Tasks/Api/Fences.antt =====
-- What a claim through /api/tasks takes, and who may write a task's row after it.
use mathlib.Core.Option.{some-injective}
use copy_s3_to_oci.Base.{
  ℕ, ◌≡◌, refl, subst, Bool, true, false, ◌&&◌, ◌||◌, ◌≤◌, not, some, List, [], ◌∷◌, arith, select,
  order_by, All, All-select_self, All-select, All-order_by, ◌≢◌, ◌⊎◌, inl, inr, Bool-cases, ◌==◌,
  ap,
}
use copy_s3_to_oci.Http.{err, HttpError}
use copy_s3_to_oci.Schema.{
  Task, TaskState, Db, get_task, is_ready, is_running, wave_open, source_open,
}
use copy_s3_to_oci.Tasks.Query.{task_before, lease_expired, is_due}
use copy_s3_to_oci.Tasks.Lookup.{IsUnique, IsUnique-found, get_task-hit, get_task-miss}
use copy_s3_to_oci.Tasks.Api.{
  eligible, claimed, claim_first, commit_claim, claim_task, is_held, heartbeat_task, succeed_task,
  fail_task,
}

self_eq : (n : ℕ) → (n == n) ≡ true
self_eq n = ground arith

-- What the claim of task `k` has found and written.
pub record Claims (locked : ℕ → Bool) (worker lease now k : ℕ) (db after : Db) : Type 0 where
  pub task : Task
  pub found : get_task k db.tasks ≡ some task
  pub claimable :
      (task.state ≡ TaskState.ready)
      ⊎ ((task.state ≡ TaskState.running) × (lease_expired task.lease_expires_at now ≡ true))
  pub due : task.available_at ≤ now
  pub wave : wave_open db task.wave_id ≡ true
  pub source : source_open db task.wave_id ≡ true
  pub unlocked : locked k ≡ false
  pub written : get_task k after.tasks ≡ some (claimed worker lease now task)
  pub others : (j : ℕ) → (j ≡ k) ⊎ (get_task j after.tasks ≡ get_task j db.tasks)

was_claimable :
    (state : TaskState) (lapsed rest : Bool)
    → ((is_ready state || is_running state && lapsed) && rest) ≡ true
    → (state ≡ TaskState.ready) ⊎ ((state ≡ TaskState.running) × (lapsed ≡ true))
was_claimable TaskState.ready lapsed rest h = inl refl
was_claimable TaskState.running true rest h = inr (refl, refl)
was_claimable TaskState.running false rest h = cc
was_claimable TaskState.succeeded lapsed rest h = cc
was_claimable TaskState.failed lapsed rest h = cc
was_claimable TaskState.cancelled lapsed rest h = cc

module _ (locked : ℕ → Bool) (worker lease now : ℕ) (db : Db) where
  abbrev pub wanted : Task → Bool
  wanted t = eligible db now t && not (locked t.id)

  abbrev pub queue : List Task
  queue = order_by task_before (select wanted db.tasks)

  abbrev pub Fits : Task → Type 0
  Fits t = (wanted t ≡ true) × (get_task t.id db.tasks ≡ some t)

  pair_up :
      (ts : List Task)
      → All (λ t. wanted t ≡ true) ts
      → All (λ t. get_task t.id db.tasks ≡ some t) ts
      → All Fits ts
  pair_up [] h g = tt
  pair_up (t ∷ ts) h g = ((h.0, g.0), pair_up ts h.1 g.1)

  pub queue-Fits : IsUnique db.tasks → All Fits queue
  queue-Fits u = All-order_by Fits task_before (select wanted db.tasks) (
      pair_up _ (All-select_self wanted db.tasks)
        (All-select _ wanted db.tasks (IsUnique-found db.tasks u)))

  commit_claim-Claims :
      (t : Task)
      → Fits t
      → Claims locked worker lease now t.id db (commit_claim worker lease now t db)
  unfolding eligible
  commit_claim-Claims t h = record {
    task = t;
    found = h.1;
    claimable =
        was_claimable t.state (lease_expired t.lease_expires_at now) (is_due db now t)
          (ground arith);
    due = ground arith;
    wave = ground arith;
    source = ground arith;
    unlocked = ground arith;
    written = get_task-hit t.id (claimed worker lease now) db.tasks (λ u. refl) h.1;
    others = λ j. elim (Bool-cases (j == t.id)) [
      | inl e ↦ inl (ground arith)
      | inr e ↦ inr (
          get_task-miss j t.id (claimed worker lease now) db.tasks (λ u. refl)
            (λ same. cc (ap (λ n. n == t.id) same, e, self_eq t.id)))
    ];
  }

  first-Claims :
      (ts : List Task) (k : ℕ)
      → All Fits ts
      → (claim_first worker lease now db ts).0 ≡ some k
      → Claims locked worker lease now k db (claim_first worker lease now db ts).1
  first-Claims [] k h e = cc
  first-Claims (t ∷ ts) k h e =
      subst (λ j. Claims locked worker lease now j db (commit_claim worker lease now t db))
        (some-injective t.id k e) (commit_claim-Claims t h.0)

-- A claim through /api/tasks/claim that returns a task has found it ready, or running under a
-- lease that had run out, due, in a wave that is not paused and whose source is not archived,
-- and held by no other transaction; it writes this task's row as running under the worker's
-- lease, and no other row. The task ids are distinct.
pub claim_task-Claims :
    (locked : ℕ → Bool) (worker lease now : ℕ) (db : Db) (k : ℕ)
    → IsUnique db.tasks
    → (claim_task locked worker lease now db).0 ≡ some k
    → Claims locked worker lease now k db (claim_task locked worker lease now db).1
unfolding claim_task
claim_task-Claims locked worker lease now db k u e =
    first-Claims locked worker lease now db _ k (queue-Fits locked worker lease now db u) e

-- The three writes of a worker to the task that it holds, each refused with 409.
pub record IsRefused (key worker : ℕ) (db : Db) : Type 0 where
  pub heartbeat : (lease now : ℕ) → heartbeat_task key worker lease now db ≡ err HttpError.conflict
  pub succeed : succeed_task key worker db ≡ err HttpError.conflict
  pub fail :
      (retry_after message now : ℕ)
      → fail_task key worker retry_after message now db ≡ err HttpError.conflict

not_held-IsRefused :
    (key worker : ℕ) (db : Db) {t : Task}
    → get_task key db.tasks ≡ some t
    → is_held worker t ≡ false
    → IsRefused key worker db
unfolding heartbeat_task succeed_task fail_task
not_held-IsRefused key worker db e h = record {
  heartbeat = λ lease now. ground arith;
  succeed = ground arith;
  fail = λ retry_after message now. ground arith;
}

-- Once a task has been claimed by one worker, the heartbeat, the success and the failure that
-- any other worker reports for it are refused with 409, where the task ids are distinct.
pub claim_task-IsRefused :
    (locked : ℕ → Bool) (worker other lease now : ℕ) (db : Db) (k : ℕ)
    → IsUnique db.tasks
    → other ≢ worker
    → (claim_task locked worker lease now db).0 ≡ some k
    → IsRefused k other (claim_task locked worker lease now db).1
claim_task-IsRefused locked worker other lease now db k u ne e =
    let c = claim_task-Claims locked worker lease now db k u e in
    not_held-IsRefused k other _ c.written (ground arith)
