-- ===== src/Discovery/Merge.antt =====
-- A rediscovery rewrites no object that a wave has taken.
use mathlib.Core.Option
use copy_s3_to_oci.Base.{
  ℕ, ◌≡◌, refl, sym, ap, ◌∙◌, Bool, true, false, Option, some, List, [], ◌∷◌, ◌++◌, ◌==◌, arith,
  any, find_by, find_by-update_where, All, All-map_of, All-find_by, update_where, if◌then◌else◌,
  Bool-cases, Option-cases, inl, inr,
}
use copy_s3_to_oci.Schema.{ObjectRecord, Db, get_object}
use copy_s3_to_oci.Discovery.{
  Row, Progress, is_duplicate, discovery_row_changed, is_prior, is_assigned, refreshed, merge_prior,
  merge_row, merge_all, inserted, insert_fresh, merge_discovery_rows, update_prior, begin, store,
}

-- Each row is the one that its id finds: the ids are distinct.
abbrev pub HasKeys : List ObjectRecord → Type 0
HasKeys os = All (λ o. get_object o.id os ≡ some o) os

All-update :
    (P : ObjectRecord → Type 0) (p : ObjectRecord → Bool) (f : ObjectRecord → ObjectRecord)
    (os : List ObjectRecord)
    → All (λ o. P (if p o then f o else o)) os
    → All P (update_where p f os)
All-update P p f [] h = tt
All-update P p f (o ∷ os) h = (h.0, All-update P p f os h.1)

module _ (r : Row) (key : ℕ) where
  here : ObjectRecord → Bool
  here o = o.id == key

  fresh_row : ObjectRecord → ObjectRecord
  fresh_row o = if here o then refreshed r o else o

  same_id : (o : ObjectRecord) → (fresh_row o).id ≡ o.id
  unfolding fresh_row
  same_id o = elim (Bool-cases (here o)) [
    | inl e ↦ rw (e, if◌then◌else◌) refl
    | inr e ↦ rw (e, if◌then◌else◌) refl
  ]

  get_object-refresh :
      (k : ℕ) (os : List ObjectRecord) {o : ObjectRecord}
      → get_object k os ≡ some o
      → get_object k (update_where here (refreshed r) os) ≡ some (fresh_row o)
  unfolding fresh_row
  get_object-refresh k os e =
      find_by-update_where (λ o. o.id == k) here (refreshed r) os (λ o. refl)
      ∙ ap (Option.map fresh_row) e

  HasKeys-refresh :
      (os : List ObjectRecord) → HasKeys os → HasKeys (update_where here (refreshed r) os)
  unfolding fresh_row
  HasKeys-refresh os h = All-update _ here (refreshed r) os (
      All-map_of
        (λ o e.
          ap (λ k. get_object k (update_where here (refreshed r) os)) (same_id o)
          ∙ get_object-refresh o.id os e)
        os h)

-- The row of `k` is `o`, and the ids are distinct.
Holds : ℕ → ObjectRecord → List ObjectRecord → Type 0
Holds k o os = HasKeys os × (get_object k os ≡ some o)

get_object-id :
    (k : ℕ) (os : List ObjectRecord) {o : ObjectRecord} → get_object k os ≡ some o → o.id ≡ k
get_object-id k [] e = cc
get_object-id k (u ∷ os) {o} e = ground (arith, get_object-id k os {o = o})

module _ (source : ℕ) (job : Option ℕ) (k : ℕ) (o : ObjectRecord)
    (taken : is_assigned o ≡ true) where
  update-keeps :
      (r : Row) (prior : ObjectRecord) (p : Progress)
      → get_object prior.id p.objects ≡ some prior
      → is_assigned prior ≡ false
      → Holds k o p.objects
      → Holds k o (update_prior source job prior r p).objects
  unfolding Holds here fresh_row
  update-keeps r prior p found free (keys, e) = (
    HasKeys-refresh r prior.id p.objects keys,
    get_object-refresh r prior.id k p.objects e ∙ elim (Bool-cases (o.id == prior.id)) [
      | inl same ↦
          let named : k ≡ prior.id = sym (get_object-id k p.objects e) ∙ ground arith in
          let one : o ≡ prior =
            Option.some-injective o prior
              (sym e ∙ ap (λ n. get_object n p.objects) named ∙ found) in
          cc (ap is_assigned one)
      | inr other ↦ rw (other, if◌then◌else◌) refl
    ],
  )

  prior-keeps :
      (r : Row) (prior : ObjectRecord) (p : Progress)
      → get_object prior.id p.objects ≡ some prior
      → Holds k o p.objects
      → Holds k o (merge_prior source job (some prior) r p).objects
  unfolding merge_prior
  prior-keeps r prior p found h = elim (Bool-cases (discovery_row_changed prior r)) [
    | inr e ↦ rw (e, if◌then◌else◌) h
    | inl e ↦ elim (Bool-cases (is_assigned prior)) [
      | inr free ↦ rw (e, free, if◌then◌else◌) (update-keeps r prior p found free h)
      | inl t ↦
          rw (e, t, if◌then◌else◌)
            (elim (Bool-cases (any (is_duplicate source r) p.changes)) [
              | inl d ↦ rw (d, if◌then◌else◌) h
              | inr d ↦ rw (d, if◌then◌else◌) h
            ])
    ]
  ]

  row-keeps :
      (r : Row) (p : Progress) → Holds k o p.objects → Holds k o (merge_row source job r p).objects
  unfolding merge_row merge_prior Holds
  row-keeps r p h = elim (Option-cases (find_by (is_prior source r.object_key) p.objects)) [
    | inl e ↦ rw e h
    | inr (prior, e) ↦ rw e (
        prior-keeps r prior p
          (All-find_by (λ o. get_object o.id p.objects ≡ some o) _ p.objects h.0 e) h)
  ]

  all-keeps :
      (rs : List Row) (p : Progress)
      → Holds k o p.objects
      → Holds k o (merge_all source job rs p).objects
  unfolding merge_all
  all-keeps [] p h = h
  all-keeps (r ∷ rs) p h = all-keeps rs (merge_row source job r p) (row-keeps r p h)

append-keeps :
    (k : ℕ) (os more : List ObjectRecord) {o : ObjectRecord}
    → get_object k os ≡ some o
    → get_object k (os ++ more) ≡ some o
append-keeps k [] more e = cc
append-keeps k (u ∷ os) more {o} e = ground (arith, append-keeps k os more {o = o})

insert-keeps :
    (source k : ℕ) (rs : List Row) (db : Db) {o : ObjectRecord}
    → get_object k db.objects ≡ some o
    → get_object k (insert_fresh source rs db).objects ≡ some o
unfolding insert_fresh
insert-keeps source k [] db e = e
insert-keeps source k (r ∷ rs) db e =
    insert-keeps source k rs _ (append-keeps k db.objects (inserted db.next_id source r ∷ []) e)

-- A rediscovery leaves alone the row of an object that a wave has taken or whose state is no
-- longer DISCOVERED, whatever rows it brings, where the object ids are distinct.
pub merge_discovery_rows-keeps_assigned :
    (source : ℕ) (job : Option ℕ) (rows : List Row) (db : Db) (k : ℕ) (o : ObjectRecord)
    → HasKeys db.objects
    → get_object k db.objects ≡ some o
    → is_assigned o ≡ true
    → get_object k (merge_discovery_rows source job rows db).1.objects ≡ some o
unfolding merge_discovery_rows Holds
merge_discovery_rows-keeps_assigned source job rows db k o keys e taken =
    insert-keeps source k (merge_all source job rows (begin db)).fresh
      (store job (merge_all source job rows (begin db)) db)
      (all-keeps source job k o taken rows (begin db) (keys, e)).1
