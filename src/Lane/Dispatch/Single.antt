-- ===== src/Lane/Dispatch/Single.antt =====
-- The dispatchers of a source.
use copy_s3_to_oci.Base.{
  count-added, ℕ, ◌≤◌, ◌≡◌, ◌≢◌, refl, sym, ap, ◌∙◌, Bool, true, false, ◌&&◌, some, List, [], ◌∷◌,
  ◌++◌, ◌==◌, arith, length, select, select-none, any, any-none, count, All, All-order_by,
  All-select_self, All-select, All-update_where, length-order_by, if◌then◌else◌, Bool-cases, inl,
  inr, ◌⊎◌,
}
use copy_s3_to_oci.Schema.{Task, TaskKind, QueueItem, Db, new_task, source_of, is_dispatchable}
use copy_s3_to_oci.Lane.Refresh.{
  refresh_transfer_queue_priorities, refreshed_page, refresh_item, has_expired,
}
use copy_s3_to_oci.Lane.{is_among}
use copy_s3_to_oci.Lane.Dispatch.{
  lane_task, is_open_work, open_work, add_dispatcher, ensure_transfer_task, due_at, dispatch_before,
}

select-append :
    (p : Task → Bool) (ts us : List Task) → select p (ts ++ us) ≡ select p ts ++ select p us
select-append p [] us = refl
select-append p (t ∷ ts) us = ground (arith, select-append p ts us)

added-single :
    (source now : ℕ) (is : List QueueItem) (db : Db)
    → any (lane_task db source) db.tasks ≡ false
    → let after = (add_dispatcher source now is db).1 in
      count (lane_task after source) after.tasks ≤ 1
added-single source now [] db idle =
    rw (select-none (lane_task db source) db.tasks (any-none (lane_task db source) db.tasks idle))
      (omega arith)
added-single source now (i ∷ is) db idle =
    let none_yet : count (lane_task db source) db.tasks ≡ 0 =
      ap length (select-none (lane_task db source) db.tasks (any-none _ db.tasks idle)) in
    ground (
      arith,
      count-added (lane_task db source) db.tasks
          (new_task db.next_id i.wave_id TaskKind.transfer_continuous (due_at now i)),
      none_yet,
    )

-- Ensuring a dispatcher leaves at most one queued or running dispatcher for the source in open
-- waves, if there was at most one.
pub ensure_transfer_task-single :
    (reserve source priority_now now : ℕ) (db : Db)
    → count (lane_task db source) db.tasks ≤ 1
    → let after = (ensure_transfer_task reserve source priority_now now db).1 in
      count (lane_task after source) after.tasks ≤ 1
unfolding ensure_transfer_task refresh_transfer_queue_priorities
ensure_transfer_task-single reserve source priority_now now db h =
    elim (Bool-cases (any (lane_task db source) db.tasks)) [
      | inl busy ↦ rw (busy, if◌then◌else◌) h
      | inr idle ↦
          rw (idle, if◌then◌else◌)
            (added-single source now _
              (refresh_transfer_queue_priorities reserve source priority_now db) idle)
    ]

-- Each item stands for an object of its source.
abbrev pub IsConsistent : Db → Type 0
IsConsistent db = All (λ i. source_of db i.wave_id ≡ some i.source_id) db.items

any-added : (p : Task → Bool) (ts : List Task) (t : Task) → p t ≡ true → any p (ts ++ t ∷ []) ≡ true
any-added p [] t h = rw h refl
any-added p (u ∷ ts) t h = ground (arith, any-added p ts t h)

outer : (a b c : Bool) → (a && b) && c ≡ true → a && c ≡ true
outer a b c h = ground arith

fits-lane :
    (db : Db) (source key now : ℕ) (i : QueueItem)
    → is_open_work db source i ≡ true
    → source_of db i.wave_id ≡ some i.source_id
    → lane_task db source (new_task key i.wave_id TaskKind.transfer_continuous now) ≡ true
fits-lane db source key now i h owner =
    rw owner (outer (i.source_id == source) (is_dispatchable i.state) _ h)

added-serves :
    (source now : ℕ) (is : List QueueItem) (db : Db)
    → All (λ i. is_open_work db source i ≡ true) is
    → All (λ i. source_of db i.wave_id ≡ some i.source_id) is
    → (length is ≡ 0)
      ⊎ (let after = (add_dispatcher source now is db).1 in
          any (lane_task after source) after.tasks ≡ true)
added-serves source now [] db h own = inl refl
added-serves source now (i ∷ is) db h own = inr (
    any-added (lane_task db source) db.tasks _
      (fits-lane db source db.next_id (due_at now i) i h.0 own.0))

any-length :
    (p : QueueItem → Bool) (is : List QueueItem) → any p is ≡ true → length (select p is) ≢ 0
any-length p [] h = cc
any-length p (i ∷ is) h = ground (arith, any-length p is)

open_work-serves :
    (source now : ℕ) (db : Db)
    → IsConsistent db
    → any (is_open_work db source) db.items ≡ true
    → let after = (add_dispatcher source now (open_work source now db) db).1 in
      any (lane_task after source) after.tasks ≡ true
unfolding open_work
open_work-serves source now db own work =
    elim (added-serves source now (open_work source now db) db
      (All-order_by _ (dispatch_before now) _ (All-select_self (is_open_work db source) db.items))
      (All-order_by _ (dispatch_before now) _
        (All-select (λ i. source_of db i.wave_id ≡ some i.source_id) _ db.items own))) [
          | inl none_ ↦ absurd (
              any-length (is_open_work db source) db.items work (
                sym
                  (length-order_by (dispatch_before now) (select (is_open_work db source) db.items))
                ∙ none_))
          | inr there ↦ there
        ]

refreshed-owner :
    (reserve now : ℕ) (db : Db) (i : QueueItem)
    → source_of db i.wave_id ≡ some i.source_id
    → let j = refresh_item reserve now db i in source_of db j.wave_id ≡ some j.source_id
unfolding refresh_item
refreshed-owner reserve now db i h = elim (Bool-cases (has_expired now i.restore_expires_at)) [
  | inl e ↦ rw (e, if◌then◌else◌) h
  | inr e ↦ rw (e, if◌then◌else◌) h
]

refresh-IsConsistent :
    (reserve source now : ℕ) (db : Db)
    → IsConsistent db
    → IsConsistent (refresh_transfer_queue_priorities reserve source now db)
unfolding refresh_transfer_queue_priorities
refresh-IsConsistent reserve source now db h =
    All-update_where (is_among (refreshed_page source db)) (refresh_item reserve now db)
      (λ i own hit. refreshed-owner reserve now db i own) (λ i own miss. own) db.items h

-- Work is not left without a dispatcher: if, after the refresh, an item of the source waits to
-- be dispatched in an open wave of an open source, a dispatcher of the source is queued or
-- running afterwards, where each item's source is that of its wave.
pub ensure_transfer_task-serves :
    (reserve source priority_now now : ℕ) (db : Db)
    → IsConsistent db
    → let fresh = refresh_transfer_queue_priorities reserve source priority_now db in
      any (is_open_work fresh source) fresh.items ≡ true
      → let after = (ensure_transfer_task reserve source priority_now now db).1 in
        any (lane_task after source) after.tasks ≡ true
unfolding ensure_transfer_task
ensure_transfer_task-serves reserve source priority_now now db own work =
    elim (Bool-cases (any (lane_task db source) db.tasks)) [
      | inl busy ↦ rw (busy, if◌then◌else◌) busy
      | inr idle ↦
          rw (idle, if◌then◌else◌)
            (open_work-serves source now
              (refresh_transfer_queue_priorities reserve source priority_now db)
              (refresh-IsConsistent reserve source priority_now db own) work)
    ]
