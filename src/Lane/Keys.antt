-- ===== src/Lane/Keys.antt =====
-- Rows of the queue by their ids: a step that rewrites a page of rows leaves every other row alone.
use mathlib.Core.Option
use copy_s3_to_oci.Base.{
  ℕ, ◌≡◌, refl, sym, ap, ◌∙◌, Bool, true, false, some, List, [], ◌∷◌, ◌==◌, arith, All, All-map_of,
  update_where, find_by-update_where, if◌then◌else◌, Bool-cases, inl, inr, any,
}
use copy_s3_to_oci.Schema.{QueueItem, get_item}
use copy_s3_to_oci.Lane.{is_among}

-- Each row is the one that its id finds: the ids are distinct.
abbrev pub HasKeys : List QueueItem → Type 0
HasKeys is = All (λ i. get_item i.id is ≡ some i) is

All-update {κ} :
    (P : QueueItem → Type κ) (p : QueueItem → Bool) (f : QueueItem → QueueItem)
    (is : List QueueItem)
    → All (λ i. P (if p i then f i else i)) is
    → All P (update_where p f is)
All-update P p f [] h = tt
All-update P p f (i ∷ is) h = (h.0, All-update P p f is h.1)

module _ (p : QueueItem → Bool) (f : QueueItem → QueueItem) where
  pub get_item-update_where :
      (k : ℕ) (is : List QueueItem) {i : QueueItem}
      → ((j : QueueItem) → (f j).id ≡ j.id)
      → get_item k is ≡ some i
      → get_item k (update_where p f is) ≡ some (if p i then f i else i)
  get_item-update_where k is same e =
      find_by-update_where (λ j. j.id == k) p f is (λ j. ap (λ n. n == k) (same j))
      ∙ ap (Option.map (λ j. if p j then f j else j)) e

  same_id :
      ((j : QueueItem) → (f j).id ≡ j.id) → (i : QueueItem) → (if p i then f i else i).id ≡ i.id
  same_id same i = elim (Bool-cases (p i)) [
    | inl e ↦ rw (e, if◌then◌else◌) (same i)
    | inr e ↦ rw (e, if◌then◌else◌) refl
  ]

  pub HasKeys-update_where :
      (is : List QueueItem)
      → ((j : QueueItem) → (f j).id ≡ j.id)
      → HasKeys is
      → HasKeys (update_where p f is)
  HasKeys-update_where is same h = All-update _ p f is (
      All-map_of
        (λ i e.
          ap (λ k. get_item k (update_where p f is)) (same_id same i)
          ∙ get_item-update_where i.id is same e)
        is h)

-- A row with the id of a row of the page is that row.
among-holds :
    (q : QueueItem → Bool) (is page : List QueueItem) (i : QueueItem)
    → All (λ j. get_item j.id is ≡ some j) page
    → All (λ j. q j ≡ true) page
    → get_item i.id is ≡ some i
    → is_among page i ≡ true
    → q i ≡ true
among-holds q is [] i keys h e a = cc
among-holds q is (j ∷ page) i keys h e a = elim (Bool-cases (j.id == i.id)) [
  | inl d ↦
      let named : j.id ≡ i.id = ground arith in
      let one : j ≡ i =
        Option.some-injective j i (sym keys.0 ∙ ap (λ k. get_item k is) named ∙ e) in
      sym (ap q one) ∙ h.0
  | inr d ↦ among-holds q is page i keys.1 h.1 e (rw (d, any) at a)
]

-- What holds of the page and not of the row keeps the row out of the page.
pub not_among :
    (q : QueueItem → Bool) (is page : List QueueItem) (i : QueueItem)
    → All (λ j. get_item j.id is ≡ some j) page
    → All (λ j. q j ≡ true) page
    → get_item i.id is ≡ some i
    → q i ≡ false
    → is_among page i ≡ false
not_among q is page i keys h e miss = elim (Bool-cases (is_among page i)) [
  | inl a ↦ cc (among-holds q is page i keys h e a)
  | inr a ↦ a
]

pub get_item-id : (k : ℕ) (is : List QueueItem) {i : QueueItem} → get_item k is ≡ some i → i.id ≡ k
get_item-id k [] e = cc
get_item-id k (u ∷ is) {i} e = ground (arith, get_item-id k is {i = i})
