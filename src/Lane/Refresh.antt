-- ===== src/Lane/Refresh.antt =====
-- `refresh_transfer_queue_priorities` of app/main.py. The count of changed rows that it returns is
-- used by no caller and is left out.
use copy_s3_to_oci.Base.{
  ℕ, ◌-◌, Bool, false, ◌&&◌, Option, none, some, List, ◌==◌, leb, take, select, update_where,
  order_by, if◌then◌else◌,
}
use copy_s3_to_oci.Schema.{QueueItem, QueueState, Db, is_waiting}
use copy_s3_to_oci.Lane.{urgent_before, is_among, refresh_page}
use copy_s3_to_oci.Lane.Reason
use copy_s3_to_oci.Lane.Priority.{Priority, transfer_priority, bonus_of}
use copy_s3_to_oci.Lane.Admission.{wave_total, wave_available, business_of}

-- The priority of a waiting item; its age counts from when it became available.
unfoldable pub refreshed_priority : ℕ → ℕ → Db → QueueItem → Priority
unfolding transfer_priority bonus_of
refreshed_priority reserve now db i =
    transfer_priority i.restore_expires_at i.predicted_transfer_ms reserve now (
      bonus_of (wave_available i.wave_id db) (wave_total i.wave_id db) (now - i.available_at)
        (business_of i.source_id db) i.size_bytes)

abbrev pub has_expired : ℕ → Option ℕ → Bool
has_expired now none = false
has_expired now (some at) = leb at now

abbrev pub rescored : Priority → QueueItem → QueueItem
rescored p i = record i {
  priority_score = p.score;
  priority_band = p.band;
  priority_details = p.details;
  decision_reason = p.reason;
}

abbrev pub expired_copy : QueueItem → QueueItem
expired_copy i = record i {
  state = QueueState.reapproval_required;
  decision_reason = Reason.expired_copy;
}

unfoldable pub refresh_item : ℕ → ℕ → Db → QueueItem → QueueItem
unfolding refreshed_priority
refresh_item reserve now db i =
    if has_expired now i.restore_expires_at
    then expired_copy (rescored (refreshed_priority reserve now db i) i)
    else rescored (refreshed_priority reserve now db i) i

-- With a source given; the page is what the next claim can reach.
unfoldable pub refreshed_page : ℕ → Db → List QueueItem
refreshed_page source db =
    take refresh_page
      (order_by urgent_before (select (λ i. is_waiting i.state && i.source_id == source) db.items))

unfoldable pub refresh_transfer_queue_priorities : ℕ → ℕ → ℕ → Db → Db
unfolding refreshed_page refresh_item
refresh_transfer_queue_priorities reserve source now db = record db {
  items = update_where (is_among (refreshed_page source db)) (refresh_item reserve now db) db.items;
}
