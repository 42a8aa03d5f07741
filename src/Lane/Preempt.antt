-- ===== src/Lane/Preempt.antt =====
-- `choose_cooperative_preemption_target` of app/real_worker.py. The choice compares the seconds that
-- the objects still need, bits by kilobits a second, by cross multiplication.
pub mod Handoff
use copy_s3_to_oci.Base.{
  ℕ, ◌+◌, ◌-◌, ◌*◌, max, Bool, true, false, ◌&&◌, ◌||◌, not, Option, none, some, List, [], ◌∷◌,
  ◌==◌, ltb, leb, select, update_where, any, is_none, if◌then◌else◌,
}
use copy_s3_to_oci.Schema.{ObjectRecord, QueueItem, Db, is_leased, get_object}
use copy_s3_to_oci.Lane.Reason

abbrev pub cooldown_seconds : ℕ
cooldown_seconds = 60

-- The leased items of the source below the critical priority, among the running ones.
abbrev pub is_running_normal : (ℕ → Bool) → ℕ → List ℕ → ℕ → QueueItem → Bool
is_running_normal locked source running critical i =
    (i.source_id == source && any (λ k. k == i.id) running)
    && (is_leased i.state && ltb i.priority_score critical)
    && not (locked i.id)

abbrev pub cooldown_is_active : ℕ → QueueItem → Bool
cooldown_is_active reference i = elim i.preemption_cooldown_until [
  | none ↦ false
  | some until ↦ ltb reference until
]

abbrev pub progress_of : Option ObjectRecord → ℕ
progress_of none = 0
progress_of (some o) = o.transfer_progress_bytes

-- `max(.1, rate)` Mbit/s.
abbrev pub rate_of : Option ObjectRecord → ℕ
rate_of none = 100
rate_of (some o) = max 100 o.transfer_rate_kbps

abbrev pub remaining_bytes : Db → QueueItem → ℕ
remaining_bytes db i = i.size_bytes - progress_of (get_object i.object_id db.objects)

abbrev pub rate : Db → QueueItem → ℕ
rate db i = rate_of (get_object i.object_id db.objects)

-- `(remaining_seconds(i), i.id) < (remaining_seconds(j), j.id)`.
unfoldable pub sooner : Db → QueueItem → QueueItem → Bool
sooner db i j =
    let a = remaining_bytes db i * rate db j in
    let b = remaining_bytes db j * rate db i in ltb a b || a == b && ltb i.id j.id

-- `min(rows, key=...)`.
pub soonest : Db → QueueItem → List QueueItem → QueueItem
unfolding sooner
soonest db best [] = best
soonest db best (i ∷ is) = soonest db (if sooner db i best then i else best) is

abbrev pub handed : ℕ → ℕ → QueueItem → QueueItem
handed reference successor i = record i {
  preemption_count = i.preemption_count + 1;
  preemption_cooldown_until = some (reference + cooldown_seconds);
  preemption_successor_item_id = some successor;
  preemption_requested_at = some reference;
  decision_reason = Reason.handoff_target;
}

abbrev pub hand_over : ℕ → QueueItem → List QueueItem → Db → Option ℕ × Db
unfolding soonest
hand_over reference critical [] db = (none, db)
hand_over reference critical (i ∷ is) db =
    let target = soonest db i is in
    (
      some target.id,
      record db {
        items = update_where (λ j. j.id == target.id) (handed reference critical.id) db.items;
      },
    )

-- Of the rows, those without a successor; none if a row is inside its cooldown.
abbrev pub eligible_rows : ℕ → List QueueItem → List QueueItem
eligible_rows reference rows =
    if any (cooldown_is_active reference) rows
    then []
    else select (λ i. is_none i.preemption_successor_item_id) rows

-- `running` are the ids of the items that threads copy now.
unfoldable pub choose_cooperative_preemption_target :
    (ℕ → Bool) → ℕ → List ℕ → QueueItem → ℕ → ℕ → Db → Option ℕ × Db
unfolding hand_over
choose_cooperative_preemption_target locked source running critical priority reference db =
    if ltb critical.priority_score priority
    then (none, db)
    else hand_over reference critical
        (eligible_rows reference
          (select (is_running_normal locked source running priority) db.items))
        db
