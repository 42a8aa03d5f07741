-- ===== src/Tasks/Api.antt =====
-- /api/tasks/claim, heartbeat, succeed, fail and recover of app/main.py.
pub mod Fences
pub mod Terminal
use copy_s3_to_oci.Base.{
  ℕ, ◌+◌, Bool, ◌&&◌, ◌||◌, not, Option, none, some, List, [], ◌∷◌, holds, select, order_by,
  update_where, count, if◌then◌else◌,
}
use copy_s3_to_oci.Http.{Reply, ok, err, HttpError, raise_if, or_404, ◌>>=◌, ◌>>◌}
use copy_s3_to_oci.Schema.{
  Task, TaskState, Db, EventKind, is_ready, is_running, get_task, set_task, log,
}
use copy_s3_to_oci.Tasks.Query.{lease_expired, is_due, task_before}

unfoldable pub eligible : Db → ℕ → Task → Bool
eligible db now t =
    (is_ready t.state || is_running t.state && lease_expired t.lease_expires_at now)
    && is_due db now t

-- What a claim writes into the task's row.
abbrev pub claimed : ℕ → ℕ → ℕ → Task → Task
claimed worker lease now t = record t {
  state = TaskState.running;
  worker_id = some worker;
  attempts = t.attempts + 1;
  lease_expires_at = some (now + lease);
}

abbrev pub commit_claim : ℕ → ℕ → ℕ → Task → Db → Db
commit_claim worker lease now t db =
    log EventKind.task_claimed none (some t.wave_id) (set_task t.id (claimed worker lease now) db)

abbrev pub claim_first : ℕ → ℕ → ℕ → Db → List Task → Option ℕ × Db
claim_first worker lease now db [] = (none, db)
claim_first worker lease now db (t ∷ _) = (some t.id, commit_claim worker lease now t db)

unfoldable pub claim_task : (ℕ → Bool) → ℕ → ℕ → ℕ → Db → Option ℕ × Db
claim_task locked worker lease now db =
    claim_first worker lease now db
      (order_by task_before (select (λ t. eligible db now t && not (locked t.id)) db.tasks))

-- `task.state != RUNNING or task.worker_id != payload.worker_id` raises 409.
abbrev pub is_held : ℕ → Task → Bool
is_held worker t = is_running t.state && holds t.worker_id worker

-- `task_or_404`, the check of the holder, and the write `put` of the handlers below.
abbrev pub write_held : ℕ → ℕ → (Task → Db → Db) → Db → Reply Db
write_held key worker put db = do
  task ← or_404 (get_task key db.tasks)
  raise_if (not (is_held worker task)) HttpError.conflict
  ok (put task db)

abbrev pub beaten : ℕ → ℕ → Task → Task
beaten lease now t = record t { lease_expires_at = some (now + lease) }

abbrev pub put_beat : ℕ → ℕ → ℕ → Task → Db → Db
put_beat key lease now task = set_task key (beaten lease now)

pub heartbeat_task : ℕ → ℕ → ℕ → ℕ → Db → Reply Db
heartbeat_task key worker lease now = write_held key worker (put_beat key lease now)

abbrev pub finished : Task → Task
finished t = record t { state = TaskState.succeeded; lease_expires_at = none; error = none }

abbrev pub put_success : ℕ → Task → Db → Db
put_success key task db =
    log EventKind.task_succeeded none (some task.wave_id) (set_task key finished db)

pub succeed_task : ℕ → ℕ → Db → Reply Db
succeed_task key worker = write_held key worker (put_success key)

-- `message` is `payload.error or "Worker reported failure"`.
abbrev pub returned : ℕ → ℕ → ℕ → Task → Task
returned retry_after message now t = record t {
  state = TaskState.ready;
  available_at = now + retry_after;
  lease_expires_at = none;
  error = some message;
}

abbrev pub put_return : ℕ → ℕ → ℕ → ℕ → Task → Db → Db
put_return key retry_after message now task db =
    log EventKind.task_retry_queued none (some task.wave_id)
      (set_task key (returned retry_after message now) db)

pub fail_task : ℕ → ℕ → ℕ → ℕ → ℕ → Db → Reply Db
fail_task key worker retry_after message now =
    write_held key worker (put_return key retry_after message now)

abbrev pub is_abandoned : (ℕ → Bool) → ℕ → Task → Bool
is_abandoned locked now t =
    is_running t.state && lease_expired t.lease_expires_at now && not (locked t.id)

abbrev log_recovered : List Task → Db → Db
log_recovered [] db = db
log_recovered (t ∷ ts) db = log_recovered ts (log EventKind.task_recovered none (some t.wave_id) db)

-- `message` is the text "Lease expired; task recovered after worker interruption".
abbrev recovered : ℕ → ℕ → Task → Task
recovered message now t = record t {
  state = TaskState.ready;
  available_at = now;
  worker_id = none;
  lease_expires_at = none;
  error = some message;
}

pub recover_expired_tasks : (ℕ → Bool) → ℕ → ℕ → Db → ℕ × Db
recover_expired_tasks locked message now db = (
  count (is_abandoned locked now) db.tasks,
  log_recovered (select (is_abandoned locked now) db.tasks) (record db {
    tasks = update_where (is_abandoned locked now) (recovered message now) db.tasks;
  }),
)
