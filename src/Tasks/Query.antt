-- ===== src/Tasks/Query.antt =====
-- The conditions by which both claims select a task.
use copy_s3_to_oci.Base.{
  ℕ, Bool, false, ◌&&◌, ◌||◌, not, Option, none, some, ltb, leb, ◌==◌, holds, any,
}
use copy_s3_to_oci.Schema.{Task, Db, is_running, is_lane, wave_open, source_open, source_of}

-- `lease_expires_at < now`, false where there is no lease.
abbrev pub lease_expired : Option ℕ → ℕ → Bool
lease_expired none now = false
lease_expired (some at) now = ltb at now

-- `lease_expires_at >= now`.
abbrev pub lease_live : Option ℕ → ℕ → Bool
lease_live none now = false
lease_live (some at) now = leb now at

-- `Task.available_at <= now` with the joins on an open wave of an open source.
abbrev pub is_due : Db → ℕ → Task → Bool
is_due db now t = leb t.available_at now && wave_open db t.wave_id && source_open db t.wave_id

-- `order_by(Task.available_at, Task.id)`.
abbrev pub task_before : Task → Task → Bool
task_before t u =
    ltb t.available_at u.available_at || t.available_at == u.available_at && leb t.id u.id

abbrev pub same_source : Option ℕ → Option ℕ → Bool
same_source none b = false
same_source (some a) b = holds b a

-- A dispatcher that runs under a live lease, for source `s`.
abbrev pub live_lane : Db → ℕ → ℕ → Task → Bool
live_lane db now s t =
    is_lane t.kind
    && is_running t.state
    && lease_live t.lease_expires_at now
    && holds (source_of db t.wave_id) s

-- Another live dispatcher for the source of `c`.
abbrev pub busy_beside : Db → ℕ → Task → Task → Bool
busy_beside db now c t =
    is_lane t.kind
    && is_running t.state
    && lease_live t.lease_expires_at now
    && same_source (source_of db c.wave_id) (source_of db t.wave_id)
    && not (t.id == c.id)

-- `live_same_source` of the worker's `claim_task`, for the candidate `c`.
unfoldable pub live_same_source : Db → ℕ → Task → Bool
live_same_source db now c = any (busy_beside db now c) db.tasks
