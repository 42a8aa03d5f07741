-- ===== src/Lane/Claim.antt =====
-- `_continuous_item_query`, `_continuous_ready_item_count` and `claim_continuous_transfer_batch` of
-- app/real_worker.py. `locked` says which rows another transaction holds, `token` is the new uuid.
pub mod Batch
pub mod Leases
use copy_s3_to_oci.Base.{
  ℕ, ◌+◌, min, max, Bool, true, false, ◌&&◌, ◌||◌, not, Option, none, some, List, [], ◌∷◌, ◌++◌,
  ◌==◌, ltb, leb, length, total, take, select, update_where, count, order_by, if◌then◌else◌,
}
use copy_s3_to_oci.Schema.{
  ObjectRecord, ObjectState, QueueItem, QueueState, DispatchBatch, Band, Db, EventKind, is_restored,
  set_task, log,
}
use copy_s3_to_oci.Lane.{urgent_before, is_claimable, is_among, claim_page}
use copy_s3_to_oci.Lane.Reason
use copy_s3_to_oci.Lane.Recover.{recover_expired_continuous_item_leases, object_of}
use copy_s3_to_oci.Lane.Refresh.{refresh_transfer_queue_priorities}

-- The fields of `RuntimeSettings` that the claim reads.
pub record Settings : Type 0 where
  pub critical_priority : ℕ
  pub batch_max_objects : ℕ
  pub batch_max_bytes : ℕ
  pub critical_batch_max_objects : ℕ
  pub critical_batch_max_bytes : ℕ
  pub task_lease_seconds : ℕ
  pub min_buffer_seconds : ℕ

abbrev pub at_least : Option ℕ → QueueItem → Bool
at_least none i = true
at_least (some minimum) i = leb minimum i.priority_score

unfoldable pub candidate_items : (ℕ → Bool) → ℕ → Option ℕ → ℕ → Db → List QueueItem
candidate_items locked source minimum now db = take claim_page (
    order_by urgent_before (
      select (λ i. (is_claimable db source now i && at_least minimum i) && not (locked i.id))
        db.items))

unfoldable pub ready_item_count : ℕ → ℕ → Db → ℕ
ready_item_count source now db = count (is_claimable db source now) db.items

abbrev pub is_critical : Settings → QueueItem → Bool
is_critical s i = leb s.critical_priority i.priority_score

abbrev pub same : Bool → Bool → Bool
same true b = b
same false b = not b

-- The loop that fills the batch, `n` items and `bytes` bytes being selected before.
pub pick : Settings → Bool → ℕ → ℕ → ℕ → ℕ → List QueueItem → List QueueItem
pick s critical objects limit n bytes [] = []
pick s critical objects limit n bytes (i ∷ is) =
    let rest = pick s critical objects limit (n + 1) (bytes + i.size_bytes) is in
    if not (same critical (is_critical s i))
    then []
    else if ltb 0 n && (leb objects n || ltb limit (bytes + i.size_bytes))
    then []
    else if leb objects (n + 1)
    then i ∷ []
    else i ∷ rest

abbrev pub capped : Option ℕ → ℕ → ℕ
capped none limit = limit
capped (some most) limit = min limit (max 1 most)

abbrev pub object_limit : Settings → Option ℕ → Bool → ℕ
object_limit s most critical =
    capped most (if critical then s.critical_batch_max_objects else s.batch_max_objects)

abbrev pub byte_limit : Settings → Bool → ℕ
byte_limit s critical = if critical then s.critical_batch_max_bytes else s.batch_max_bytes

unfoldable pub batch_of : Settings → Option ℕ → QueueItem → List QueueItem → List QueueItem
unfolding pick
batch_of s most lead is =
    pick s (is_critical s lead) (object_limit s most (is_critical s lead))
      (byte_limit s (is_critical s lead)) 0 0 (lead ∷ is)

abbrev pub leased : ℕ → ℕ → ℕ → ℕ → Bool → QueueItem → QueueItem
leased token me until batch critical i = record i {
  state = QueueState.leased;
  lease_token = some token;
  lease_owner = some me;
  lease_expires_at = some until;
  attempts = i.attempts + 1;
  dispatch_batch_id = some batch;
  decision_reason = if critical then Reason.claimed_critical else Reason.claimed_normal;
}

abbrev pub dispatch_batch :
    Settings → ℕ → ℕ → ℕ → Option ℕ → QueueItem → List QueueItem → DispatchBatch
dispatch_batch s key source task most lead batch = record {
  id = key;
  source_id = source;
  wave_id = lead.wave_id;
  task_id = task;
  priority_band = if is_critical s lead then Band.critical else lead.priority_band;
  priority_score = lead.priority_score;
  reason = lead.decision_reason;
  object_limit = object_limit s most (is_critical s lead);
  byte_limit = byte_limit s (is_critical s lead);
  object_count = length batch;
  bytes_planned = total (λ i. i.size_bytes) batch;
}

-- What the claim writes once the batch is chosen. The lead is the first item of the batch.
unfoldable pub lease_batch :
    Settings → ℕ → ℕ → ℕ → ℕ → Option ℕ → ℕ → QueueItem → List QueueItem → Db → Db
lease_batch s me token source task most now lead batch db =
    set_task task (λ t. record t { lease_expires_at = some (now + s.task_lease_seconds) })
      (log EventKind.continuous_transfer_dispatch_decision (some source) (some lead.wave_id)
        (record db {
          batches = db.batches ++ dispatch_batch s db.next_id source task most lead batch ∷ [];
          items =
              update_where (is_among batch)
                (leased token me (now + s.task_lease_seconds) db.next_id (is_critical s lead))
                db.items;
          objects =
              update_where (λ o. object_of batch o && is_restored o.state)
                (λ o. record o { state = ObjectState.transferring }) db.objects;
          next_id = db.next_id + 1;
        }))

abbrev pub claim_from :
    Settings → ℕ → ℕ → ℕ → ℕ → Option ℕ → ℕ → Db → List QueueItem → List QueueItem × Db
unfolding lease_batch batch_of
claim_from s me token source task most now db [] = ([], db)
claim_from s me token source task most now db (i ∷ is) =
    let batch = batch_of s most i is in
    (batch, lease_batch s me token source task most now i batch db)

-- The database that the candidates are read from.
unfoldable pub prepared : Settings → (ℕ → Bool) → ℕ → ℕ → ℕ → Db → Db
unfolding recover_expired_continuous_item_leases refresh_transfer_queue_priorities
prepared s locked source priority_now now db =
    refresh_transfer_queue_priorities s.min_buffer_seconds source priority_now
      (recover_expired_continuous_item_leases locked source now db).1

-- `priority_now` is the source's clock, `now` the wall clock.
unfoldable pub claim_continuous_transfer_batch :
    Settings → (ℕ → Bool) → ℕ → ℕ → ℕ → ℕ → Option ℕ → Option ℕ → ℕ → ℕ → Db → List QueueItem × Db
unfolding prepared candidate_items claim_from
claim_continuous_transfer_batch s locked me token source task most minimum priority_now now db =
    let ready = prepared s locked source priority_now now db in
    claim_from s me token source task most now ready
      (candidate_items locked source minimum now ready)
