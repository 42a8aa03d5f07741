-- ===== src/Lane/Recover.antt =====
-- `recover_expired_continuous_item_leases` and `_return_unstarted_queue_items` of
-- app/real_worker.py. `locked` says which rows another transaction holds.
pub mod Drain
use copy_s3_to_oci.Base.{
  ℕ, Bool, true, false, ◌&&◌, ◌||◌, not, Option, none, some, List, [], ◌∷◌, ◌==◌, leb, take, select,
  update_where, any, length, order_by, is_some,
}
use copy_s3_to_oci.Schema.{
  ObjectRecord, ObjectState, QueueItem, QueueState, Db, EventKind, is_leased, is_transferring,
  get_item, log,
}
use copy_s3_to_oci.Tasks.{lease_expired}
use copy_s3_to_oci.Lane.{lex, is_among, claim_page}
use copy_s3_to_oci.Lane.Reason

abbrev lease_or_0 : Option ℕ → ℕ
lease_or_0 none = 0
lease_or_0 (some at) = at

abbrev pub lease_before : QueueItem → QueueItem → Bool
lease_before i j =
    lex (lease_or_0 i.lease_expires_at) (lease_or_0 j.lease_expires_at) (leb i.id j.id)

abbrev pub abandoned : (ℕ → Bool) → ℕ → ℕ → QueueItem → Bool
abandoned locked source now i =
    (i.source_id == source && is_leased i.state)
    && lease_expired i.lease_expires_at now
    && not (locked i.id)

unfoldable pub abandoned_page : (ℕ → Bool) → ℕ → ℕ → Db → List QueueItem
abandoned_page locked source now db =
    take claim_page (order_by lease_before (select (abandoned locked source now) db.items))

abbrev pub resumable : QueueItem → QueueItem
resumable i = record i {
  state = QueueState.multipart_resume;
  lease_token = none;
  lease_owner = none;
  lease_expires_at = none;
  decision_reason = Reason.lease_expired;
}

-- The object of one of the items.
abbrev pub object_of : List QueueItem → ObjectRecord → Bool
object_of is o = any (λ i. i.object_id == o.id) is

abbrev pub back_to_restored : List QueueItem → List ObjectRecord → List ObjectRecord
back_to_restored is =
    update_where (λ o. object_of is o && is_transferring o.state)
      (λ o. record o { state = ObjectState.restored })

-- The successor of a handoff is gone, no longer leased, or under a lease that has run out.
abbrev pub successor_lost : ℕ → Option QueueItem → Bool
successor_lost now none = true
successor_lost now (some s) = not (is_leased s.state) || lease_expired s.lease_expires_at now

abbrev pub stale_handoff : ℕ → List QueueItem → QueueItem → Bool
stale_handoff now items i = elim i.preemption_successor_item_id [
  | none ↦ false
  | some k ↦ successor_lost now (get_item k items)
]

abbrev pub without_handoff : QueueItem → QueueItem
without_handoff i = record i {
  preemption_successor_item_id = none;
  preemption_requested_at = none;
  decision_reason = Reason.handoff_expired;
}

-- The second query has no order; the table's is taken.
unfoldable pub reserved_page : ℕ → List QueueItem → List QueueItem
reserved_page source items = take claim_page (
    select
      (λ i. (i.source_id == source && is_leased i.state) && is_some i.preemption_successor_item_id)
      items)

unfoldable pub clear_stale : ℕ → ℕ → List QueueItem → List QueueItem
unfolding reserved_page
clear_stale source now items =
    update_where (λ i. is_among (reserved_page source items) i && stale_handoff now items i)
      without_handoff items

abbrev pub log_recovered : ℕ → List QueueItem → Db → Db
log_recovered source [] db = db
log_recovered source (i ∷ is) db =
    log EventKind.continuous_transfer_leases_recovered (some source) none db

unfoldable pub recover_expired_continuous_item_leases : (ℕ → Bool) → ℕ → ℕ → Db → ℕ × Db
unfolding abandoned_page clear_stale
recover_expired_continuous_item_leases locked source now db =
    let page = abandoned_page locked source now db in
    (
      length page,
      log_recovered source page (record db {
        items = clear_stale source now (update_where (is_among page) resumable db.items);
        objects = back_to_restored page db.objects;
      }),
    )

abbrev pub returned : ℕ → QueueItem → QueueItem
returned reason i = record i {
  state = QueueState.ready;
  lease_token = none;
  lease_owner = none;
  lease_expires_at = none;
  decision_reason = reason;
}

unfoldable pub return_unstarted_queue_items : List QueueItem → ℕ → Db → Db
return_unstarted_queue_items items reason db = record db {
  items = update_where (is_among items) (returned reason) db.items;
  objects = back_to_restored items db.objects;
}
