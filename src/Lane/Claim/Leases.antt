-- ===== src/Lane/Claim/Leases.antt =====
-- Items under a live lease during another dispatcher's claim.
use copy_s3_to_oci.Base.{
  ℕ, ◌+◌, ◌≡◌, refl, sym, subst, ap, ◌∙◌, Bool, true, false, ◌&&◌, not, Option, some, List, [], ◌∷◌,
  ◌==◌, arith, All, All-take, All-order_by, All-select, All-select_self, take, select, update_where,
  order_by, any, if◌then◌else◌, Bool-cases, inl, inr,
}
use copy_s3_to_oci.Schema.{QueueItem, Db, is_leased, is_waiting, get_item}
use copy_s3_to_oci.Tasks.{lease_expired}
use copy_s3_to_oci.Lane.{is_among, is_claimable, urgent_before, claim_page, refresh_page}
use copy_s3_to_oci.Lane.Keys.{
  HasKeys, HasKeys-update_where, get_item-update_where, not_among, get_item-id,
}
use copy_s3_to_oci.Lane.Recover.{
  recover_expired_continuous_item_leases, abandoned, abandoned_page, resumable, clear_stale,
  lease_before, without_handoff, stale_handoff, reserved_page,
}
use copy_s3_to_oci.Lane.Recover.Drain.{log_recovered-items}
use copy_s3_to_oci.Lane.Refresh.{
  refresh_transfer_queue_priorities, refreshed_page, refresh_item, has_expired,
}
use copy_s3_to_oci.Lane.Claim.{
  Settings, prepared, candidate_items, claim_continuous_transfer_batch, claim_from, batch_of,
  at_least, lease_batch, leased, is_critical,
}
use copy_s3_to_oci.Lane.Claim.Batch.{batch_of-IsBatch}

-- A page of a query: rows of the table that fit.
pub page-keys :
    (q : QueueItem → Bool) (before : QueueItem → QueueItem → Bool) (n : ℕ) (is : List QueueItem)
    → HasKeys is
    → All (λ i. get_item i.id is ≡ some i) (take n (order_by before (select q is)))
page-keys q before n is h =
    All-take _ n _ (All-order_by _ before _ (All-select (λ i. get_item i.id is ≡ some i) q is h))

pub page-fits :
    (q : QueueItem → Bool) (before : QueueItem → QueueItem → Bool) (n : ℕ) (is : List QueueItem)
    → All (λ i. q i ≡ true) (take n (order_by before (select q is)))
page-fits q before n is = All-take _ n _ (All-order_by _ before _ (All-select_self q is))

-- A row outside the query is left alone by an update of the page.
pub page-misses :
    (q : QueueItem → Bool) (before : QueueItem → QueueItem → Bool) (n : ℕ)
    (f : QueueItem → QueueItem) (is : List QueueItem) (k : ℕ) {i : QueueItem}
    → ((j : QueueItem) → (f j).id ≡ j.id)
    → HasKeys is
    → get_item k is ≡ some i
    → q i ≡ false
    → get_item k (update_where (is_among (take n (order_by before (select q is)))) f is) ≡ some i
page-misses q before n f is k {i} same h e miss =
    let page = take n (order_by before (select q is)) in
    let out : is_among page i ≡ false =
      not_among q is page i (page-keys q before n is h) (page-fits q before n is)
        (ap (λ m. get_item m is) (get_item-id k is e) ∙ e) miss in
    get_item-update_where (is_among page) f k is same e
    ∙ ap some (ap (λ b. if b then f i else i) out)

pub record SameLease (i j : QueueItem) : Type 0 where
  pub id : j.id ≡ i.id
  pub state : j.state ≡ i.state
  pub token : j.lease_token ≡ i.lease_token
  pub owner : j.lease_owner ≡ i.lease_owner
  pub until : j.lease_expires_at ≡ i.lease_expires_at

same_lease : (i : QueueItem) → SameLease i i
same_lease i = record { id = refl; state = refl; token = refl; owner = refl; until = refl }

-- The row of `i`, with the lease of `i`.
abbrev pub KeepsLease : ℕ → QueueItem → List QueueItem → Type 0
KeepsLease k i is = (j : QueueItem) × (get_item k is ≡ some j) × SameLease i j

clear_stale-keeps :
    (source now k : ℕ) (is : List QueueItem) {i : QueueItem}
    → get_item k is ≡ some i
    → KeepsLease k i (clear_stale source now is)
unfolding clear_stale
clear_stale-keeps source now k is {i} e =
    let p : QueueItem → Bool =
      λ j. is_among (reserved_page source is) j && stale_handoff now is j in
    (
      if p i then without_handoff i else i,
      get_item-update_where p without_handoff k is (λ j. refl) e,
      elim (Bool-cases (p i)) [
        | inl t ↦
            rw (t, if◌then◌else◌)
              (record { id = refl; state = refl; token = refl; owner = refl; until = refl })
        | inr t ↦ rw (t, if◌then◌else◌) (same_lease i)
      ],
    )

module _ (locked : ℕ → Bool) (source now : ℕ) (db : Db) where
  recover-items :
      (recover_expired_continuous_item_leases locked source now db).1.items
      ≡ clear_stale source now
          (update_where (is_among (abandoned_page locked source now db)) resumable db.items)
  unfolding recover_expired_continuous_item_leases
  recover-items = log_recovered-items source (abandoned_page locked source now db) _

  recover-keeps :
      (k : ℕ) {i : QueueItem}
      → HasKeys db.items
      → get_item k db.items ≡ some i
      → lease_expired i.lease_expires_at now ≡ false
      → KeepsLease k i (recover_expired_continuous_item_leases locked source now db).1.items
  unfolding abandoned_page
  recover-keeps k {i} h e live = subst (KeepsLease k i) (sym recover-items) (
      clear_stale-keeps source now k _ (
        page-misses (abandoned locked source now) lease_before claim_page resumable db.items k
          (λ j. refl) h e (ground arith)))

  recover-HasKeys :
      HasKeys db.items
      → HasKeys (recover_expired_continuous_item_leases locked source now db).1.items
  unfolding clear_stale
  recover-HasKeys h = subst HasKeys (sym recover-items) (
      HasKeys-update_where _ without_handoff _ (λ j. refl)
        (HasKeys-update_where _ resumable db.items (λ j. refl) h))

refresh_item-id :
    (reserve now : ℕ) (db : Db) (i : QueueItem) → (refresh_item reserve now db i).id ≡ i.id
unfolding refresh_item
refresh_item-id reserve now db i = elim (Bool-cases (has_expired now i.restore_expires_at)) [
  | inl e ↦ rw (e, if◌then◌else◌) refl
  | inr e ↦ rw (e, if◌then◌else◌) refl
]

module _ (reserve source now : ℕ) (db : Db) where
  -- A refresh does not touch a leased item.
  refresh-keeps :
      (k : ℕ) {i : QueueItem}
      → HasKeys db.items
      → get_item k db.items ≡ some i
      → is_leased i.state ≡ true
      → get_item k (refresh_transfer_queue_priorities reserve source now db).items ≡ some i
  unfolding refresh_transfer_queue_priorities refreshed_page
  refresh-keeps k {i} h e held =
      page-misses (λ i. is_waiting i.state && i.source_id == source) urgent_before refresh_page
        (refresh_item reserve now db) db.items k (refresh_item-id reserve now db) h e (ground arith)

  refresh-HasKeys :
      HasKeys db.items → HasKeys (refresh_transfer_queue_priorities reserve source now db).items
  unfolding refresh_transfer_queue_priorities
  refresh-HasKeys h =
      HasKeys-update_where _ (refresh_item reserve now db) db.items (refresh_item-id reserve now db)
        h

-- The batch holds no row outside the query, and its lease reaches no such row.
module _ (s : Settings) (me token source task : ℕ) (most : Option ℕ) (now : ℕ) (db : Db) where
  from-keeps :
      (q : QueueItem → Bool) (cs : List QueueItem) (k : ℕ) {i : QueueItem}
      → HasKeys db.items
      → All (λ j. get_item j.id db.items ≡ some j) cs
      → All (λ j. q j ≡ true) cs
      → get_item k db.items ≡ some i
      → q i ≡ false
      → let found = claim_from s me token source task most now db cs in
        (get_item k found.1.items ≡ some i) × (is_among found.0 i ≡ false)
  unfolding claim_from lease_batch
  from-keeps q [] k h keys fits e miss = (e, refl)
  from-keeps q (c ∷ cs) k {i} h keys fits e miss =
      let batch = batch_of s most c cs in
      let (n, prefix) = (batch_of-IsBatch s most c cs).prefix in
      let out : is_among batch i ≡ false =
        subst (λ b. is_among b i ≡ false) (sym prefix)
          (not_among q db.items (c ∷ take n cs) i (keys.0, All-take _ n cs keys.1)
            (fits.0, All-take _ n cs fits.1)
            (ap (λ m. get_item m db.items) (get_item-id k db.items e) ∙ e) miss) in
      (
        get_item-update_where (is_among batch) _ k db.items (λ j. refl) e
            ∙ ap some (
                ap
                  (λ b.
                    if b
                    then leased token me (now + s.task_lease_seconds) db.next_id (is_critical s c) i
                    else i)
                  out),
        out,
      )

leased_not_claimable :
    (db : Db) (source now : ℕ) (a b : Bool) (i : QueueItem)
    → is_leased i.state ≡ true
    → (is_claimable db source now i && a) && b ≡ false
leased_not_claimable db source now a b i h = ground arith

-- No object is dispatched twice: an item under a lease that has not run out at the time of
-- another dispatcher's claim is in no batch of that claim, and keeps its state, token, owner
-- and expiry through the recovery, the refresh and the claim, where the item ids are distinct.
pub claim_continuous_transfer_batch-KeepsLease :
    (s : Settings) (locked : ℕ → Bool) (me token source task : ℕ) (most minimum : Option ℕ)
    (priority_now now : ℕ) (db : Db) (k : ℕ) (i : QueueItem)
    → HasKeys db.items
    → get_item k db.items ≡ some i
    → is_leased i.state ≡ true
    → lease_expired i.lease_expires_at now ≡ false
    → let found =
        claim_continuous_transfer_batch s locked me token source task most minimum priority_now now
          db in
      KeepsLease k i found.1.items × (is_among found.0 i ≡ false)
unfolding claim_continuous_transfer_batch prepared candidate_items
claim_continuous_transfer_batch-KeepsLease s locked me token source task most minimum p now db k i h
      e held live =
    let recovered = (recover_expired_continuous_item_leases locked source now db).1 in
    let keys = recover-HasKeys locked source now db h in
    let (j, found, lease) = recover-keeps locked source now db k h e live in
    let ready = refresh_transfer_queue_priorities s.min_buffer_seconds source p recovered in
    let still : get_item k ready.items ≡ some j =
      refresh-keeps s.min_buffer_seconds source p recovered k keys found
        (ap is_leased lease.state ∙ held) in
    let fresh = refresh-HasKeys s.min_buffer_seconds source p recovered keys in
    let fits : QueueItem → Bool =
      λ i. (is_claimable ready source now i && at_least minimum i) && not (locked i.id) in
    let kept =
      from-keeps s me token source task most now ready fits
        (candidate_items locked source minimum now ready) k fresh
        (page-keys fits urgent_before claim_page ready.items fresh)
        (page-fits fits urgent_before claim_page ready.items) still
        (leased_not_claimable ready source now _ _ j (ap is_leased lease.state ∙ held)) in
    (
      (j, kept.0, lease),
      ap
            (λ m.
              any (λ (x : QueueItem). x.id == m)
                (claim_continuous_transfer_batch s locked me token source task most minimum p now
                  db).0)
            (sym lease.id)
          ∙ kept.1,
    )
