-- ===== src/Lane/Admission/Unique.antt =====
-- The pairs of an object and a wave in the queue, as the lane is filled.
use copy_s3_to_oci.Base.{
  ℕ, ◌+◌, ◌≤◌, ◌≡◌, refl, subst, ap, zero, suc, Bool, true, false, ◌&&◌, Option, none, some, List,
  [], ◌∷◌, ◌++◌, ◌==◌, arith, holds, length, All, All-take, All-order_by, All-select_self, any,
  any-none, count, insert_by, order_by, select, select-none, take, if◌then◌else◌, Bool-cases, inl,
  inr, ◌⊎◌,
}
use copy_s3_to_oci.Schema.{ObjectRecord, Wave, QueueItem, Db, is_restored}
use copy_s3_to_oci.Lane.{admission_page}
use copy_s3_to_oci.Lane.Admission.{
  unqueued, object_before, admitted_page, admission_priority, new_item, admit, enqueue_page,
  enqueue_available_transfer_objects,
}

-- The item of object `k` for wave `v`.
abbrev pub pair : ℕ → ℕ → QueueItem → Bool
pair v k i = i.wave_id == v && i.object_id == k

abbrev pub is_object : ℕ → ObjectRecord → Bool
is_object k o = o.id == k

count-append_one :
    (p : QueueItem → Bool) (is : List QueueItem) (j : QueueItem)
    → count p (is ++ j ∷ []) ≡ count p is + (if p j then 1 else 0)
count-append_one p [] j = ground arith
count-append_one p (i ∷ is) j = ground (arith, count-append_one p is j)

one_more :
    (x y : Bool) (o : ObjectRecord) (os : List ObjectRecord) (a b c : ℕ)
    → c ≡ b + (if x then length os else 0)
    → b ≡ a + (if x && y then 1 else 0)
    → c ≡ a + (if x then length (if y then o ∷ os else os) else 0)
one_more true true o os a b c e f = omega (arith, e, f)
one_more true false o os a b c e f = omega (arith, e, f)
one_more false y o os a b c e f = omega (arith, e, f)

-- The loop adds one item for each object of the page.
admit-count :
    (reserve now : ℕ) (w : Wave) (before : Db) (os : List ObjectRecord) (db : Db) (v k : ℕ)
    → count (pair v k) (admit reserve now w before os db).items
      ≡ count (pair v k) db.items + (if w.id == v then count (is_object k) os else 0)
unfolding admit
admit-count reserve now w before [] db v k = ground arith
admit-count reserve now w before (o ∷ os) db v k =
    let item = new_item db.next_id w o now (admission_priority reserve now w before o) in
    let grown : Db = record db { items = db.items ++ item ∷ []; next_id = db.next_id + 1 } in
    one_more (w.id == v) (o.id == k) o (select (is_object k) os) (count (pair v k) db.items) _ _
      (admit-count reserve now w before os grown v k) (count-append_one (pair v k) db.items item)

module _ (k : ℕ) where
  count-take :
      (n : ℕ) (os : List ObjectRecord) → count (is_object k) (take n os) ≤ count (is_object k) os
  count-take zero os = omega arith
  count-take (suc n) [] = omega arith
  count-take (suc n) (o ∷ os) = ground (arith, count-take n os)

  count-insert_by :
      (o : ObjectRecord) (os : List ObjectRecord)
      → count (is_object k) (insert_by object_before o os) ≡ count (is_object k) (o ∷ os)
  count-insert_by o [] = refl
  count-insert_by o (p ∷ os) = ground (arith, count-insert_by o os)

  count-order_by :
      (os : List ObjectRecord)
      → count (is_object k) (order_by object_before os) ≡ count (is_object k) os
  count-order_by [] = refl
  count-order_by (o ∷ os) =
      ground (arith, count-insert_by o (order_by object_before os), count-order_by os)

  count-select :
      (p : ObjectRecord → Bool) (os : List ObjectRecord)
      → count (is_object k) (select p os) ≤ count (is_object k) os
  count-select p [] = omega arith
  count-select p (o ∷ os) = ground (arith, count-select p os)

-- A page has each object once, and none that stands in the queue for the wave.
page-once :
    (w k : ℕ) (db : Db)
    → count (is_object k) db.objects ≤ 1
    → count (is_object k) (admitted_page w db) ≤ 1
unfolding admitted_page
page-once w k db once =
    let p : ObjectRecord → Bool =
      λ o. (holds o.wave_id w && is_restored o.state) && unqueued db o in
    omega (
      arith,
      once,
      count-take k admission_page (order_by object_before (select p db.objects)),
      count-order_by k (select p db.objects),
      count-select k p db.objects,
    )

count-any : (p : QueueItem → Bool) (is : List QueueItem) → any p is ≡ false → count p is ≡ 0
count-any p is h = ap length (select-none p is (any-none p is h))

-- What is known of each object of the page.
New : ℕ → Db → ObjectRecord → Type 0
New w db o = ((holds o.wave_id w && is_restored o.state) && unqueued db o) ≡ true

not_queued :
    (w k : ℕ) (wave : Option ℕ) (id : ℕ) (is : List QueueItem)
    → holds wave w ≡ true
    → (id == k) ≡ true
    → any (λ i. holds wave i.wave_id && i.object_id == id) is ≡ false
    → any (pair w k) is ≡ false
not_queued w k none id is h e a = cc
not_queued w k (some v) id [] h e a = refl
not_queued w k (some v) id (i ∷ is) h e a = ground (arith, not_queued w k (some v) id is h e)

New-pair :
    (w k : ℕ) (db : Db) (os : List ObjectRecord)
    → All (New w db) os
    → (count (is_object k) os ≡ 0) ⊎ (count (pair w k) db.items ≡ 0)
unfolding New
New-pair w k db [] h = inl refl
New-pair w k db (o ∷ os) h = elim (Bool-cases (o.id == k)) [
  | inl e ↦ inr (
      count-any (pair w k) db.items
        (not_queued w k o.wave_id o.id db.items (ground arith) e (ground arith)))
  | inr e ↦ rw (e, select) (New-pair w k db os h.1)
]

-- At most one item for each wave and object.
abbrev pub IsUniquePair : Db → Type 0
IsUniquePair db = (v k : ℕ) → count (pair v k) db.items ≤ 1

combined :
    (x : Bool) (queued found after : ℕ)
    → queued ≤ 1
    → found ≤ 1
    → (x ≡ true → (found ≡ 0) ⊎ (queued ≡ 0))
    → after ≡ queued + (if x then found else 0)
    → after ≤ 1
combined true queued found after q f h e = ground (arith, h refl)
combined false queued found after q f h e = omega (arith, q, e)

eq_of : (a b : ℕ) → (a == b) ≡ true → a ≡ b
eq_of a b h = ground arith

page-IsUniquePair :
    (reserve now : ℕ) (w : Wave) (os : List ObjectRecord) (db : Db)
    → ((k : ℕ) → count (is_object k) os ≤ 1)
    → All (New w.id db) os
    → IsUniquePair db
    → IsUniquePair (enqueue_page reserve now w os db).1
unfolding enqueue_page
page-IsUniquePair reserve now w [] db once new unique = unique
page-IsUniquePair reserve now w (o ∷ os) db once new unique = λ v k.
    combined (w.id == v) (count (pair v k) db.items) (count (is_object k) (o ∷ os)) _ (unique v k)
      (once k)
      (λ same.
        subst (λ u. (count (is_object k) (o ∷ os) ≡ 0) ⊎ (count (pair u k) db.items ≡ 0))
          (eq_of w.id v same) (New-pair w.id k db (o ∷ os) new))
      (admit-count reserve now w db (o ∷ os) db v k)

page-New : (w : ℕ) (db : Db) → All (New w db) (admitted_page w db)
unfolding admitted_page New
page-New w db = All-take _ admission_page _ (
    All-order_by _ object_before _ (
      All-select_self (λ o. (holds o.wave_id w && is_restored o.state) && unqueued db o)
        db.objects))

-- Filling the lane keeps at most one queue item for each wave and object, however often it is
-- done, where the object ids are distinct.
pub enqueue_available_transfer_objects-IsUniquePair :
    (reserve now : ℕ) (w : Wave) (db : Db)
    → ((k : ℕ) → count (is_object k) db.objects ≤ 1)
    → IsUniquePair db
    → IsUniquePair (enqueue_available_transfer_objects reserve now w db).1
unfolding enqueue_available_transfer_objects
enqueue_available_transfer_objects-IsUniquePair reserve now w db once unique =
    page-IsUniquePair reserve now w (admitted_page w.id db) db (λ k. page-once w.id k db (once k))
      (page-New w.id db) unique
