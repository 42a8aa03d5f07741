-- ===== src/Tasks/Worker.antt =====
-- `claim_task`, `claim_discovery_job`, `succeed`, `retry` and `fail_permanently` of
-- app/real_worker.py, and the lease helpers around them.
pub mod OneLane
pub mod Failure
use copy_s3_to_oci.Base.{
  ℕ, ◌+◌, ◌*◌, ◌/◌, min, max, Bool, true, false, ◌&&◌, ◌||◌, not, Option, none, some, List, [], ◌∷◌,
  ◌==◌, holds, ltb, leb, is_none, select, order_by, take, update_where, find_by, if◌then◌else◌,
  is_some,
}
use copy_s3_to_oci.Schema.{
  Task, TaskState, TaskKind, Wave, WaveStatus, DiscoveryJob, RestoreAttempt, Db, EventKind,
  is_ready, is_running, is_lane, is_poll, get_wave, set_task, set_wave, add_task, log,
}
use copy_s3_to_oci.Tasks.Query.{lease_expired, is_due, task_before, live_same_source}

-- `worker_can_reclaim_lease`.
pub worker_can_reclaim_lease : ℕ → Option ℕ → Option ℕ → ℕ → Bool
worker_can_reclaim_lease me worker lease now =
    holds worker me || is_none lease || lease_expired lease now

-- `interval` of `task_lease_heartbeat`.
pub heartbeat_interval : ℕ → ℕ
heartbeat_interval lease = max 5 (min 60 (max 1 lease / 3))

-- What one beat of `task_lease_heartbeat` writes.
pub renew : ℕ → ℕ → ℕ → ℕ → Db → Db
renew me key lease now db = record db {
  tasks =
      update_where (λ t. t.id == key && is_running t.state && holds t.worker_id me)
        (λ t. record t { lease_expires_at = some (now + lease) }) db.tasks;
}

pub claimable : ℕ → (TaskKind → Bool) → Db → ℕ → Task → Bool
claimable me allowed db now t =
    (is_ready t.state
      || is_running t.state && (lease_expired t.lease_expires_at now || holds t.worker_id me))
    && is_due db now t
    && allowed t.kind

-- The loop over the candidates: a dispatcher is skipped while its source has a live one.
pub first_candidate : Db → ℕ → List Task → Option Task
first_candidate db now [] = none
first_candidate db now (c ∷ cs) =
    if is_lane c.kind && live_same_source db now c then first_candidate db now cs else some c

pub candidates : (ℕ → Bool) → ℕ → (TaskKind → Bool) → ℕ → Db → List Task
candidates locked me allowed now db = take 64 (
    order_by task_before
      (select (λ t. claimable me allowed db now t && not (locked t.id)) db.tasks))

abbrev pub claimed : ℕ → ℕ → ℕ → Task → Task
claimed me lease now t = record t {
  state = TaskState.running;
  worker_id = some me;
  attempts = t.attempts + 1;
  lease_expires_at = some (now + lease);
}

pub claim_task : (ℕ → Bool) → ℕ → (TaskKind → Bool) → ℕ → ℕ → Db → Option ℕ × Db
claim_task locked me allowed lease now db =
    elim (first_candidate db now (candidates locked me allowed now db)) [
      | none ↦ (none, db)
      | some t ↦ (
        some t.id,
        log EventKind.task_claimed none (some t.wave_id) (set_task t.id (claimed me lease now) db),
      )
    ]

job_before : DiscoveryJob → DiscoveryJob → Bool
job_before t u =
    ltb t.available_at u.available_at || t.available_at == u.available_at && leb t.id u.id

job_claimable : (ℕ → Bool) → ℕ → ℕ → DiscoveryJob → Bool
job_claimable locked me now j =
    (is_ready j.state
      || is_running j.state && (lease_expired j.lease_expires_at now || holds j.worker_id me))
    && leb j.available_at now
    && not (locked j.id)

abbrev claim_first_job : ℕ → ℕ → ℕ → Db → List DiscoveryJob → Option ℕ × Db
claim_first_job me lease now db [] = (none, db)
claim_first_job me lease now db (j ∷ _) = (
  some j.id,
  log EventKind.discovery_job_claimed (some j.source_id) none (record db {
    jobs =
        update_where (λ k. k.id == j.id)
          (λ k. record k {
            state = TaskState.running;
            worker_id = some me;
            attempts = k.attempts + 1;
            lease_expires_at = some (now + max lease 300);
          })
          db.jobs;
  }),
)

pub claim_discovery_job : (ℕ → Bool) → ℕ → ℕ → ℕ → Db → Option ℕ × Db
unfolding job_before job_claimable
claim_discovery_job locked me lease now db =
    claim_first_job me lease now db
      (order_by job_before (select (job_claimable locked me now) db.jobs))

-- `succeed(session, task, next_kind)`.
abbrev add_next : ℕ → Option TaskKind → ℕ → Db → Db
add_next wave none now db = db
add_next wave (some kind) now db = add_task wave kind now db

unfoldable pub succeed : Task → Option TaskKind → ℕ → Db → Db
succeed task next now db = log EventKind.task_succeeded none (some task.wave_id) (
    set_task task.id
      (λ t. record t { state = TaskState.succeeded; lease_expires_at = none; error = none })
      (add_next task.wave_id next now db))

-- The delay of `retry` where the caller gives none: one minute an attempt, at most half an hour.
unfoldable pub retry_delay : Option ℕ → ℕ → ℕ
retry_delay (some seconds) attempts = seconds
retry_delay none attempts = min 1800 (max 60 (attempts * 60))

-- The wave's status is written over by itself there, so the wave stays as it is.
unfoldable pub retry : Task → ℕ → Option ℕ → ℕ → Db → Db
retry task message seconds now db = log EventKind.task_retry_queued none (some task.wave_id) (
    set_task task.id
      (λ t. record t {
        state = TaskState.ready;
        lease_expires_at = none;
        available_at = now + retry_delay seconds task.attempts;
        error = some message;
      })
      db)

-- `order_by(RestoreAttempt.id.desc())`, its first row.
abbrev pub newest : Option RestoreAttempt → List RestoreAttempt → Option RestoreAttempt
newest best [] = best
newest none (a ∷ more) = newest (some a) more
newest (some b) (a ∷ more) = newest (some (if leb b.id a.id then a else b)) more

abbrev pub latest_attempt : ℕ → Db → Option RestoreAttempt
latest_attempt wave db = newest none (select (λ a. a.wave_id == wave) db.attempts)

abbrev note_failure : ℕ → Option RestoreAttempt → Db → Db
note_failure message none db = db
note_failure message (some a) db =
    if is_some a.job_id && is_none a.failure_summary
    then record db {
      attempts =
          update_where (λ b. b.id == a.id) (λ b. record b { failure_summary = some message })
            db.attempts;
    }
    else db

-- The statuses that `fail_permanently` leaves alone.
abbrev pub keeps_status : WaveStatus → Bool
keeps_status WaveStatus.paused = true
keeps_status WaveStatus.verified = true
keeps_status WaveStatus.restore_request_failed = true
keeps_status WaveStatus.restore_reapproval_required = true
keeps_status _ = false

abbrev fail_wave : ℕ → Task → Option Wave → Db → Db
fail_wave message task none db = db
fail_wave message task (some w) db =
    let noted =
      if is_poll task.kind then note_failure message (latest_attempt w.id db) db else db in
    if keeps_status w.status
    then noted
    else set_wave w.id (λ v. record v { status = WaveStatus.failed }) noted

unfoldable pub fail_permanently : Task → ℕ → Db → Db
fail_permanently task message db = log EventKind.task_failed_permanently none (some task.wave_id) (
    fail_wave message task (get_wave task.wave_id db.waves) (
      set_task task.id
        (λ t. record t { state = TaskState.failed; lease_expires_at = none; error = some message })
        db))
