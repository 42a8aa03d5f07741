-- ===== src/Lane/Preempt/Handoff.antt =====
-- What a handoff chooses.
use mathlib.Core.Option.{some-injective}
use copy_s3_to_oci.Base.{
  ℕ, ◌+◌, ◌≡◌, ◌<◌, ◌≤◌, refl, ap, ◌∙◌, subst, Bool, true, false, ◌&&◌, Option, none, some, List,
  [], ◌∷◌, ◌==◌, arith, ltb, select, update_where, any, any-none, is_none, All, All-map_of,
  All-select, All-select_self, if◌then◌else◌, Bool-cases, inl, inr,
}
use copy_s3_to_oci.Schema.{QueueItem, Db, is_leased}
use copy_s3_to_oci.Lane.Preempt.{
  is_running_normal, cooldown_is_active, sooner, soonest, handed, hand_over, eligible_rows,
  choose_cooperative_preemption_target,
}

-- The chosen row is one of the rows.
soonest-all :
    (P : QueueItem → Type 0) (db : Db) (best : QueueItem) (is : List QueueItem)
    → P best
    → All P is
    → P (soonest db best is)
unfolding soonest
soonest-all P db best [] hb h = hb
soonest-all P db best (i ∷ is) hb h = elim (Bool-cases (sooner db i best)) [
  | inl e ↦ rw (e, if◌then◌else◌) (soonest-all P db i is h.0 h.1)
  | inr e ↦ rw (e, if◌then◌else◌) (soonest-all P db best is hb h.1)
]

-- What the target of a handoff was before.
pub record IsTarget (locked : ℕ → Bool) (source : ℕ) (running : List ℕ) (priority reference : ℕ)
    (target : QueueItem) : Type 0 where
  pub owner : target.source_id ≡ source
  pub copying : any (λ k. k == target.id) running ≡ true
  pub held : is_leased target.state ≡ true
  pub normal : target.priority_score < priority
  pub free : target.preemption_successor_item_id ≡ none
  pub not_cooling : cooldown_is_active reference target ≡ false

is_none-none : (o : Option ℕ) → is_none o ≡ true → o ≡ none
is_none-none none h = refl
is_none-none (some k) h = cc

free-IsTarget :
    (locked : ℕ → Bool) (source : ℕ) (running : List ℕ) (priority reference : ℕ)
    (rows : List QueueItem)
    → All (λ i. is_running_normal locked source running priority i ≡ true) rows
    → All (λ i. cooldown_is_active reference i ≡ false) rows
    → All
        (IsTarget locked source running priority reference)
        (select (λ i. is_none i.preemption_successor_item_id) rows)
free-IsTarget locked source running priority reference [] h c = tt
free-IsTarget locked source running priority reference (i ∷ is) h c =
    let rest = free-IsTarget locked source running priority reference is h.1 c.1 in
    elim (Bool-cases (is_none i.preemption_successor_item_id)) [
      | inl e ↦
          rw (e, select)
            (
              record {
                owner = ground arith;
                copying = ground arith;
                held = ground arith;
                normal = ground arith;
                free = is_none-none i.preemption_successor_item_id e;
                not_cooling = c.0;
              },
              rest,
            )
      | inr e ↦ rw (e, select) rest
    ]

eligible-IsTarget :
    (locked : ℕ → Bool) (source : ℕ) (running : List ℕ) (priority reference : ℕ)
    (items : List QueueItem)
    → All
        (IsTarget locked source running priority reference)
        (eligible_rows reference (select (is_running_normal locked source running priority) items))
eligible-IsTarget locked source running priority reference items =
    let rows = select (is_running_normal locked source running priority) items in
    elim (Bool-cases (any (cooldown_is_active reference) rows)) [
      | inl e ↦ rw (e, if◌then◌else◌) tt
      | inr e ↦
          rw (e, if◌then◌else◌)
            (free-IsTarget locked source running priority reference rows
              (All-select_self (is_running_normal locked source running priority) items)
              (any-none (cooldown_is_active reference) rows e))
    ]

-- Some row of the table is a running normal one with the id of `t`.
IsThere : (QueueItem → Bool) → List QueueItem → QueueItem → Type 0
IsThere q items t = any (λ j. q j && j.id == t.id) items ≡ true

later :
    (q : QueueItem → Bool) (i : QueueItem) (is : List QueueItem) (t : QueueItem)
    → IsThere q is t
    → IsThere q (i ∷ is) t
unfolding IsThere
later q i is t h = ground arith

select-there :
    (q : QueueItem → Bool) (items : List QueueItem) → All (IsThere q items) (select q items)
unfolding IsThere
select-there q [] = tt
select-there q (i ∷ is) =
    let rest = All-map_of (λ t h. later q i is t h) _ (select-there q is) in
    elim (Bool-cases (q i)) [
      | inl e ↦ rw (e, select) (rw e (ground arith), rest)
      | inr e ↦ rw (e, select) rest
    ]

-- The row that was handed over is inside its cooldown, also for a reader `q'` that takes it for a
-- running one.
module _ (q q' : QueueItem → Bool) (reference later_on successor k : ℕ) where
  abbrev is_cooling : QueueItem → Bool
  is_cooling j = q' j && cooldown_is_active later_on j

  handed-is_cooling :
      later_on < reference + 60
      → (j : QueueItem) → q' j ≡ true
      → ((j : QueueItem) → q' (handed reference successor j) ≡ q' j)
      → is_cooling (handed reference successor j) ≡ true
  handed-is_cooling soon j e same = rw (same j, e) (ground arith)

  cools :
      ((j : QueueItem) → q' (handed reference successor j) ≡ q' j)
      → ((j : QueueItem) → q j ≡ true → (j.id == k) ≡ true → q' j ≡ true)
      → later_on < reference + 60
      → (items : List QueueItem) → any (λ j. q j && j.id == k) items ≡ true
      → any is_cooling (
          select
            (λ j. j.id == k)
            (update_where (λ j. j.id == k) (handed reference successor) items))
        ≡ true
  cools same fits soon [] h = cc
  cools same fits soon (i ∷ is) h = elim (Bool-cases (i.id == k)) [
    | inl one ↦ elim (Bool-cases (q i)) [
      | inl e ↦
          rw (one, if◌then◌else◌)
            (rw (one, if◌then◌else◌) (rw (handed-is_cooling soon i (fits i e one) same) refl))
      | inr e ↦
          rw (one, if◌then◌else◌)
            (rw (one, if◌then◌else◌) (ground (arith, cools same fits soon is (ground arith))))
    ]
    | inr other ↦
        rw (other, if◌then◌else◌)
          (rw (other, if◌then◌else◌) (cools same fits soon is (ground arith)))
  ]

  cooling-select :
      (items : List QueueItem)
      → any is_cooling (select (λ j. j.id == k) items) ≡ true
      → any (cooldown_is_active later_on) (select q' items) ≡ true
  cooling-select [] h = cc
  cooling-select (i ∷ is) h = ground (arith, cooling-select is)

still-running :
    (locked locked' : ℕ → Bool) (source : ℕ) (running running' : List ℕ) (priority priority' k : ℕ)
    (j : QueueItem)
    → is_running_normal locked source running priority j ≡ true
    → (j.id == k) ≡ true
    → locked' k ≡ false
    → any (λ n. n == k) running' ≡ true
    → priority ≤ priority'
    → is_running_normal locked' source running' priority' j ≡ true
still-running locked locked' source running running' priority priority' k j e one free among above =
    let same : k ≡ j.id = ground arith in
    let free' = subst (λ n. locked' n ≡ false) same free in
    let among' = subst (λ n. any (λ i. i == n) running' ≡ true) same among in
    rw (free', among') (ground arith)

hand_over-target :
    (P : QueueItem → Type 0) (reference : ℕ) (critical : QueueItem) (rows : List QueueItem)
    (db : Db) {k : ℕ}
    → All P rows
    → (hand_over reference critical rows db).0 ≡ some k
    → (target : QueueItem) × (target.id ≡ k)
      × P target
      × ((hand_over reference critical rows db).1.items
          ≡ update_where (λ j. j.id == target.id) (handed reference critical.id) db.items)
unfolding hand_over
hand_over-target P reference critical [] db h e = cc
hand_over-target P reference critical (i ∷ is) db {k} h e =
    (soonest db i is, some-injective (soonest db i is).id k e, soonest-all P db i is h.0 h.1, refl)

cooling-rows :
    (reference : ℕ) (critical : QueueItem) (db : Db) (rows : List QueueItem)
    → any (cooldown_is_active reference) rows ≡ true
    → hand_over reference critical (eligible_rows reference rows) db ≡ (none, db)
unfolding hand_over
cooling-rows reference critical db rows h = rw (h, if◌then◌else◌) refl

eligible-All :
    (P : QueueItem → Type 0) (reference : ℕ) (rows : List QueueItem)
    → All P rows
    → All P (eligible_rows reference rows)
eligible-All P reference rows h = elim (Bool-cases (any (cooldown_is_active reference) rows)) [
  | inl e ↦ rw (e, if◌then◌else◌) tt
  | inr e ↦ rw (e, if◌then◌else◌) (All-select P _ rows h)
]

module _ (locked : ℕ → Bool) (source : ℕ) (running : List ℕ) (critical : QueueItem)
    (priority reference : ℕ) (db : Db) where
  choice : Option ℕ × Db
  choice = choose_cooperative_preemption_target locked source running critical priority reference db

  rows : List QueueItem
  rows = select (is_running_normal locked source running priority) db.items

  chosen :
      (P : QueueItem → Type 0) (k : ℕ)
      → All P (eligible_rows reference rows)
      → choice.0 ≡ some k
      → (target : QueueItem) × (target.id ≡ k)
        × (priority ≤ critical.priority_score)
        × P target
        × (choice.1.items
            ≡ update_where (λ j. j.id == target.id) (handed reference critical.id) db.items)
  unfolding choose_cooperative_preemption_target choice rows
  chosen P k fits h = elim (Bool-cases (ltb critical.priority_score priority)) [
    | inl low ↦ cc (rw (low, if◌then◌else◌) at h)
    | inr high ↦
        let found =
          hand_over-target P reference critical _ db fits (rw (high, if◌then◌else◌) at h) in
        (found.0, found.1, ground arith, found.2, rw (high, if◌then◌else◌) found.3)
  ]

-- The target of a handoff is a running, leased item of the source below the critical priority,
-- without a successor and outside any cooldown, the item that asks is critical, and the only
-- rows written are those of the target's id.
pub choose_cooperative_preemption_target-IsTarget :
    (locked : ℕ → Bool) (source : ℕ) (running : List ℕ) (critical : QueueItem)
    (priority reference k : ℕ) (db : Db)
    → let found =
        choose_cooperative_preemption_target locked source running critical priority reference db in
      found.0 ≡ some k
      → (target : QueueItem) × (target.id ≡ k)
        × (priority ≤ critical.priority_score)
        × IsTarget locked source running priority reference target
        × (found.1.items
            ≡ update_where (λ j. j.id == target.id) (handed reference critical.id) db.items)
unfolding choice rows
choose_cooperative_preemption_target-IsTarget locked source running critical priority reference k
      db =
    chosen locked source running critical priority reference db
      (IsTarget locked source running priority reference) k
      (eligible-IsTarget locked source running priority reference db.items)

-- After a handoff has been chosen, no second one is chosen within the next 60 seconds,
-- whichever item asks for it and whatever became of the other items, where the rows of the
-- target's id are still as the first call left them, the target is among the running items of
-- the second call and not locked by another transaction then, and the second call's critical
-- priority is no lower than the first one's.
pub choose_cooperative_preemption_target-fences :
    (locked locked' : ℕ → Bool) (source : ℕ) (running running' : List ℕ) (critical next : QueueItem)
    (priority priority' reference later_on k : ℕ) (db db' : Db)
    → let first =
        choose_cooperative_preemption_target locked source running critical priority reference db in
      first.0 ≡ some k
      → select (λ j. j.id == k) db'.items ≡ select (λ j. j.id == k) first.1.items
      → locked' k ≡ false
      → any (λ j. j == k) running' ≡ true
      → priority ≤ priority'
      → later_on < reference + 60
      → choose_cooperative_preemption_target locked' source running' next priority' later_on db'
        ≡ (none, db')
unfolding choose_cooperative_preemption_target choice rows IsThere
choose_cooperative_preemption_target-fences locked locked' source running running' critical next
      priority priority' reference later_on k db db' h kept free among above soon =
    let q = is_running_normal locked source running priority in
    let q' = is_running_normal locked' source running' priority' in
    let (target, named, _, there, items) =
      chosen locked source running critical priority reference db (IsThere q db.items) k
        (eligible-All (IsThere q db.items) reference (select q db.items) (select-there q db.items))
        h in
    let cooling =
      cools q q' reference later_on critical.id k (λ j. refl)
        (λ j e one.
          still-running locked locked' source running running' priority priority' k j e one free
            among above)
        soon db.items (subst (λ n. any (λ j. q j && j.id == n) db.items ≡ true) named there) in
    let same =
      kept
      ∙ ap (select (λ j. j.id == k)) items
      ∙ ap
          (λ (n : ℕ).
            select (λ j. j.id == k)
              (update_where (λ j. j.id == n) (handed reference critical.id) db.items))
          named in
    elim (Bool-cases (ltb next.priority_score priority')) [
      | inl low ↦ rw (low, if◌then◌else◌) refl
      | inr high ↦
          rw (high, if◌then◌else◌)
            (cooling-rows later_on next db' (select q' db'.items) (
              cooling-select q q' reference later_on critical.id k db'.items
                (ap (any (is_cooling q q' reference later_on critical.id k)) same ∙ cooling)))
    ]
