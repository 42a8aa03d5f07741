-- ===== src/Lane/Admission.antt =====
-- `enqueue_available_transfer_objects` and `refresh_transfer_queue_priorities` of app/main.py.
pub mod Unique
use copy_s3_to_oci.Base.{
  ℕ, ◌+◌, Bool, ◌&&◌, not, Option, none, some, List, [], ◌∷◌, ◌++◌, ◌==◌, holds, leb, length, take,
  select, any, count, order_by,
}
use copy_s3_to_oci.Schema.{
  ObjectRecord, Wave, QueueItem, QueueState, Db, EventKind, is_restored, is_available, get_source,
  log,
}
use copy_s3_to_oci.Lane.{admission_page}
use copy_s3_to_oci.Lane.Priority.{Priority, transfer_priority, bonus_of}

-- The outer join with the queue finds no row for the object.
abbrev pub unqueued : Db → ObjectRecord → Bool
unqueued db o = not (any (λ i. holds o.wave_id i.wave_id && i.object_id == o.id) db.items)

abbrev pub object_before : ObjectRecord → ObjectRecord → Bool
object_before o p = leb o.id p.id

unfoldable pub admitted_page : ℕ → Db → List ObjectRecord
admitted_page wave db = take admission_page (
    order_by object_before
      (select (λ o. (holds o.wave_id wave && is_restored o.state) && unqueued db o) db.objects))

abbrev pub wave_total : ℕ → Db → ℕ
wave_total wave db = count (λ o. holds o.wave_id wave) db.objects

abbrev pub wave_available : ℕ → Db → ℕ
wave_available wave db = count (λ o. holds o.wave_id wave && is_available o.state) db.objects

abbrev pub business_of : ℕ → Db → ℕ
business_of source db = elim (get_source source db.sources) [
  | none ↦ 999
  | some s ↦ s.business_priority
]

abbrev or_now : Option ℕ → ℕ → ℕ
or_now none now = now
or_now (some at) now = at

-- The priority of an object when it enters the queue; its age is 0.
abbrev pub admission_priority : ℕ → ℕ → Wave → Db → ObjectRecord → Priority
unfolding transfer_priority bonus_of
admission_priority reserve now w db o =
    transfer_priority o.restore_expires_at o.planned_transfer_ms reserve now (
      bonus_of (wave_available w.id db) (wave_total w.id db) 0 (business_of w.source_id db)
        o.size_bytes)

abbrev pub new_item : ℕ → Wave → ObjectRecord → ℕ → Priority → QueueItem
new_item key w o now p = record {
  id = key;
  source_id = w.source_id;
  wave_id = w.id;
  object_id = o.id;
  size_bytes = o.size_bytes;
  available_at = or_now o.restored_at now;
  restore_expires_at = o.restore_expires_at;
  predicted_transfer_ms = o.planned_transfer_ms;
  priority_score = p.score;
  priority_band = p.band;
  priority_details = p.details;
  state = QueueState.ready;
  lease_token = none;
  lease_owner = none;
  lease_expires_at = none;
  attempts = 0;
  retry_at = none;
  dispatch_batch_id = none;
  preemption_cooldown_until = none;
  preemption_successor_item_id = none;
  preemption_requested_at = none;
  preemption_count = 0;
  decision_reason = p.reason;
}

-- The loop over the page, `before` being the database that the priorities are computed on.
unfoldable pub admit : ℕ → ℕ → Wave → Db → List ObjectRecord → Db → Db
unfolding admission_priority
admit reserve now w before [] db = db
admit reserve now w before (o ∷ os) db = admit reserve now w before os (record db {
  items = db.items ++ new_item db.next_id w o now (admission_priority reserve now w before o) ∷ [];
  next_id = db.next_id + 1;
})

abbrev pub enqueue_page : ℕ → ℕ → Wave → List ObjectRecord → Db → ℕ × Db
unfolding admit
enqueue_page reserve now w [] db = (0, db)
enqueue_page reserve now w (o ∷ os) db = (
  length (o ∷ os),
  log EventKind.continuous_transfer_items_ready (some w.source_id) (some w.id)
      (admit reserve now w db (o ∷ os) db),
)

unfoldable pub enqueue_available_transfer_objects : ℕ → ℕ → Wave → Db → ℕ × Db
unfolding admitted_page enqueue_page
enqueue_available_transfer_objects reserve now w db =
    enqueue_page reserve now w (admitted_page w.id db) db
