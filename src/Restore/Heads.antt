-- ===== src/Restore/Heads.antt =====
-- `restored_pending_archives_from_head` of app/real_worker.py with the checkpoints that `poll_restore`
-- gives to it, and the answers of HeadObject (`restored_from_head_response`). The requests are taken in the
-- order of the objects, one of the orders in which a batch of threads may be answered.
use copy_s3_to_oci.Base.{
  ℕ, zero, suc, ◌+◌, ◌-◌, Bool, false, ◌&&◌, ◌||◌, Option, none, some, List, [], ◌∷◌, ◌==◌,
  update_where, if◌then◌else◌,
}
use copy_s3_to_oci.Schema.{ObjectRecord, ObjectState, Wave, Db, is_pending_restore, set_wave}
use copy_s3_to_oci.Worker.Errors.{Error, is_transient_code}
use copy_s3_to_oci.Restore.Core.{in_wave}

-- What HeadObject says of an object: its Restore header is finished, with the expiry, or it is not; or
-- the request raises.
pub data Head : Type 0 where
  restored : Option ℕ → Head
  waiting : Head
  refused : Error → Head

-- RESTORE_POLL_HEAD_BATCH_SIZE, less one.
abbrev pub rest_of_batch : ℕ
rest_of_batch = 999

-- The metrics and the answers so far, and how much of the metrics is in the wave already.
pub record Scan : Type 0 where
  pub requests : ℕ
  pub throttles : ℕ
  pub ready : List (ℕ × Option ℕ)
  pub saved_requests : ℕ
  pub saved_throttles : ℕ
  pub error : Option Error

abbrev pub fresh_scan : Scan
fresh_scan = record {
  requests = 0;
  throttles = 0;
  ready = [];
  saved_requests = 0;
  saved_throttles = 0;
  error = none;
}

abbrev pub is_ready_object : List (ℕ × Option ℕ) → ObjectRecord → Bool
is_ready_object [] o = false
is_ready_object ((id, e) ∷ rs) o = id == o.id || is_ready_object rs o

-- `ready.get(obj.id)`: the first entry here is the latest.
abbrev pub expiry_in : List (ℕ × Option ℕ) → ℕ → Option ℕ
expiry_in [] key = none
expiry_in ((id, e) ∷ rs) key = if id == key then e else expiry_in rs key

abbrev pub or_at : Option ℕ → ℕ → Option ℕ
or_at none now = some now
or_at (some at) now = some at

abbrev pub to_restored : List (ℕ × Option ℕ) → ℕ → ObjectRecord → ObjectRecord
to_restored ready now o = record o {
  state = ObjectState.restored;
  restored_at = or_at o.restored_at now;
  restore_expires_at = expiry_in ready o.id;
}

abbrev pub is_checkpointed : ℕ → List (ℕ × Option ℕ) → ObjectRecord → Bool
is_checkpointed wave ready o =
    is_ready_object ready o && in_wave wave o && is_pending_restore o.state

-- `persist_poll_progress`. `elapsed` gives the milliseconds that a number of requests took.
abbrev pub noted : (ℕ → ℕ) → Scan → Wave → Wave
noted elapsed s w = record w {
  availability_head_requests = w.availability_head_requests + (s.requests - s.saved_requests);
  availability_throttle_retries =
      w.availability_throttle_retries + (s.throttles - s.saved_throttles);
  availability_poll_ms = w.availability_poll_ms + (elapsed s.requests - elapsed s.saved_requests);
  last_availability_poll_objects = s.requests;
  last_availability_poll_ms = elapsed s.requests;
}

unfoldable pub persist_poll_progress : (ℕ → ℕ) → ℕ → ℕ → List (ℕ × Option ℕ) → Scan → Db → Scan × Db
persist_poll_progress elapsed wave now ready s db = (
  record s { saved_requests = s.requests; saved_throttles = s.throttles },
  set_wave wave (noted elapsed s) (record db {
    objects = update_where (is_checkpointed wave ready) (to_restored ready now) db.objects;
  }),
)

abbrev pub counts_as_throttle : Error → Bool
counts_as_throttle (Error.client status code) = is_transient_code code
counts_as_throttle _ = false

abbrev pub raise_scan : Error → Scan → Scan
raise_scan e s = record s {
  requests = s.requests + 1;
  throttles = if counts_as_throttle e then s.throttles + 1 else s.throttles;
  error = some e;
}

-- One answer, and the loop `go` over the other objects.
abbrev pub after_head : Head → ℕ → Scan → Db → (Scan → Db → Scan × Db) → Scan × Db
after_head (Head.restored e) object s db go =
    go (record s { requests = s.requests + 1; ready = (object, e) ∷ s.ready }) db
after_head Head.waiting object s db go = go (record s { requests = s.requests + 1 }) db
after_head (Head.refused e) object s db go = (raise_scan e s, db)

-- `left` is what the running batch of requests has left; a full batch is a checkpoint, and so is the end.
unfoldable pub restored_pending_archives_from_head :
    (List ℕ → Option ℕ → Head) → (ℕ → ℕ) → ℕ → ℕ → List ObjectRecord → ℕ → Scan → Db → Scan × Db
unfolding persist_poll_progress
restored_pending_archives_from_head head elapsed wave now [] left s db =
    persist_poll_progress elapsed wave now s.ready s db
restored_pending_archives_from_head head elapsed wave now (o ∷ os) zero s db =
    let (t, saved) = persist_poll_progress elapsed wave now s.ready s db in
    after_head (head o.object_key o.version_id) o.id t saved
      (restored_pending_archives_from_head head elapsed wave now os rest_of_batch)
restored_pending_archives_from_head head elapsed wave now (o ∷ os) (suc left) s db =
    after_head (head o.object_key o.version_id) o.id s db
      (restored_pending_archives_from_head head elapsed wave now os left)
