-- ===== src/Lane/Recover/Drain.antt =====
-- The abandoned leases of a source and a recovery.
use copy_s3_to_oci.Base.{
  any-order_by, ℕ, ◌≤◌, ◌≡◌, refl, sym, subst, ap, ◌∙◌, zero, suc, Bool, true, false, List, [], ◌∷◌,
  ◌==◌, arith, All, All-map_of, All-update_where, count, length, length-order_by, order_by, select,
  take, update_where, Bool-cases, inl, inr, ◌⊎◌,
}
use copy_s3_to_oci.Schema.{QueueItem, Db}
use copy_s3_to_oci.Lane.{is_among}
use copy_s3_to_oci.Lane.Recover.{
  abandoned, abandoned_page, lease_before, resumable, without_handoff, clear_stale, log_recovered,
  recover_expired_continuous_item_leases,
}

take-all : (n : ℕ) (is : List QueueItem) → length is ≤ n → take n is ≡ is
take-all zero [] h = refl
take-all zero (i ∷ is) h = absurd (omega arith)
take-all (suc n) [] h = refl
take-all (suc n) (i ∷ is) h = ap (◌∷◌ i) (take-all n is (omega (arith, h)))

-- A row fits the query and is among its rows, or does not fit.
Covered : (QueueItem → Bool) → List QueueItem → QueueItem → Type 0
Covered p items i = (p i ≡ false) ⊎ (is_among (select p items) i ≡ true)

Covered-later :
    (p : QueueItem → Bool) (j : QueueItem) (is : List QueueItem) (i : QueueItem)
    → Covered p is i
    → Covered p (j ∷ is) i
unfolding Covered
Covered-later p j is i (inl e) = inl e
Covered-later p j is i (inr e) = elim (Bool-cases (p j)) [
  | inl t ↦ inr (rw (t, select) (ground arith))
  | inr t ↦ inr (rw (t, select) e)
]

select-Covered : (p : QueueItem → Bool) (is : List QueueItem) → All (Covered p is) is
unfolding Covered
select-Covered p [] = tt
select-Covered p (i ∷ is) = elim (Bool-cases (p i)) [
  | inl e ↦ (
    inr (rw (e, select) (ground arith)),
    All-map_of (Covered-later p i is) is (select-Covered p is),
  )
  | inr e ↦ (inl e, All-map_of (Covered-later p i is) is (select-Covered p is))
]

module _ (locked : ℕ → Bool) (source now : ℕ) (db : Db) where
  page-all :
      (i : QueueItem)
      → count (abandoned locked source now) db.items ≤ 256
      → is_among (abandoned_page locked source now db) i
        ≡ is_among (select (abandoned locked source now) db.items) i
  unfolding abandoned_page
  page-all i few =
      let rows = select (abandoned locked source now) db.items in
      ap (λ is. is_among is i)
        (take-all 256 (order_by lease_before rows)
          (omega (arith, few, length-order_by lease_before rows)))
      ∙ any-order_by (λ j. j.id == i.id) lease_before rows

  hit :
      (i : QueueItem)
      → Covered (abandoned locked source now) db.items i
      → is_among (abandoned_page locked source now db) i ≡ true
      → abandoned locked source now (resumable i) ≡ false
  hit i c e = ground arith

  miss :
      count (abandoned locked source now) db.items ≤ 256
      → (i : QueueItem) → Covered (abandoned locked source now) db.items i
      → is_among (abandoned_page locked source now db) i ≡ false
      → abandoned locked source now i ≡ false
  unfolding Covered
  miss few i (inl e) out = e
  miss few i (inr e) out = cc (page-all i few, e, out)

pub log_recovered-items :
    (source : ℕ) (page : List QueueItem) (db : Db) → (log_recovered source page db).items ≡ db.items
log_recovered-items source [] db = refl
log_recovered-items source (i ∷ is) db = refl

-- After a recovery no item of the source is left under a lease that has run out, other than
-- those locked by another transaction, if at most 256 such items were found.
pub recover_expired_continuous_item_leases-drains :
    (locked : ℕ → Bool) (source now : ℕ) (db : Db)
    → count (abandoned locked source now) db.items ≤ 256
    → All
        (λ i. abandoned locked source now i ≡ false)
        (recover_expired_continuous_item_leases locked source now db).1.items
unfolding recover_expired_continuous_item_leases clear_stale Covered
recover_expired_continuous_item_leases-drains locked source now db few =
    let page = abandoned_page locked source now db in
    let after = update_where (is_among page) resumable db.items in
    subst (All (λ i. abandoned locked source now i ≡ false))
      (sym (log_recovered-items source page _))
      (All-update_where _ without_handoff (λ i h e. h) (λ i h e. h) after
        (All-update_where (is_among page) resumable (hit locked source now db)
          (miss locked source now db few) db.items
          (select-Covered (abandoned locked source now) db.items)))
