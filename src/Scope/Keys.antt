-- ===== src/Scope/Keys.antt =====
-- Which keys two prefixes share.
use copy_s3_to_oci.Base.{
  ◌≡◌, ◌↔◌, refl, true, false, List, [], ◌∷◌, arith, All, All-map_of, Bool-cases, inl, inr, ◌⊎◌,
}
use copy_s3_to_oci.Scope.{Text, starts_with, text_lt, insert_new, sorted_set, s3_prefixes_overlap}

starts_with_self : (p : Text) → starts_with p p ≡ true
starts_with_self [] = refl
starts_with_self (c ∷ cs) = ground (arith, starts_with_self cs)

starts_with-empty : (text : Text) → starts_with text [] ≡ true
starts_with-empty [] = refl
starts_with-empty (c ∷ cs) = refl

-- Of two prefixes of one key, one begins with the other.
pub starts_with-comparable :
    (key p q : Text)
    → starts_with key p ≡ true
    → starts_with key q ≡ true
    → (starts_with p q ≡ true) ⊎ (starts_with q p ≡ true)
starts_with-comparable key [] q hp hq = inr (starts_with-empty q)
starts_with-comparable key (c ∷ cs) [] hp hq = inl refl
starts_with-comparable [] (c ∷ cs) (d ∷ ds) hp hq = cc
starts_with-comparable (k ∷ ks) (c ∷ cs) (d ∷ ds) hp hq =
    ground (arith, starts_with-comparable ks cs ds)

overlap-cases :
    (left right : Text)
    → s3_prefixes_overlap left right ≡ true
    → (starts_with left right ≡ true) ⊎ (starts_with right left ≡ true)
unfolding s3_prefixes_overlap
overlap-cases [] right h = inr (starts_with-empty right)
overlap-cases (c ∷ cs) [] h = inl refl
overlap-cases (c ∷ cs) (d ∷ ds) h = ground arith

cases-overlap :
    (left right : Text)
    → (starts_with left right ≡ true) ⊎ (starts_with right left ≡ true)
    → s3_prefixes_overlap left right ≡ true
unfolding s3_prefixes_overlap
cases-overlap left right h = ground arith

shared-key :
    (left right : Text)
    → (starts_with left right ≡ true) ⊎ (starts_with right left ≡ true)
    → (key : Text) × (starts_with key left ≡ true) × (starts_with key right ≡ true)
shared-key left right (inl h) = (left, starts_with_self left, h)
shared-key left right (inr h) = (right, h, starts_with_self right)

-- Two prefixes overlap exactly if some key begins with both.
pub s3_prefixes_overlap-shares :
    (left right : Text)
    → (s3_prefixes_overlap left right ≡ true)
      ↔ ((key : Text) × (starts_with key left ≡ true) × (starts_with key right ≡ true))
s3_prefixes_overlap-shares left right = (
  λ h. shared-key left right (overlap-cases left right h),
  λ (key, hl, hr). cases-overlap left right (starts_with-comparable key left right hl hr),
)

-- Sorted without repetitions: the head is below all others.
abbrev pub IsSorted : List Text → Type 0
IsSorted [] = Unit
IsSorted (p ∷ ps) = All (λ q. text_lt p q ≡ true) ps × IsSorted ps

text_lt_trans : (p q r : Text) → text_lt p q ≡ true → text_lt q r ≡ true → text_lt p r ≡ true
text_lt_trans [] [] r h k = cc
text_lt_trans [] (d ∷ ds) [] h k = cc
text_lt_trans [] (d ∷ ds) (e ∷ es) h k = refl
text_lt_trans (c ∷ cs) [] r h k = cc
text_lt_trans (c ∷ cs) (d ∷ ds) [] h k = cc
text_lt_trans (c ∷ cs) (d ∷ ds) (e ∷ es) h k = ground (arith, text_lt_trans cs ds es)

All-insert_new :
    (P : Text → Type 0) (p : Text) (qs : List Text) → P p → All P qs → All P (insert_new p qs)
All-insert_new P p [] hp h = (hp, tt)
All-insert_new P p (q ∷ qs) hp h = elim (Bool-cases (text_lt p q)) [
  | inl e ↦ rw (e, insert_new) (hp, h)
  | inr e ↦ elim (Bool-cases (text_lt q p)) [
    | inl d ↦ rw (e, d, insert_new) (h.0, All-insert_new P p qs hp h.1)
    | inr d ↦ rw (e, d, insert_new) h
  ]
]

insert_new-IsSorted : (p : Text) (qs : List Text) → IsSorted qs → IsSorted (insert_new p qs)
insert_new-IsSorted p [] h = (tt, tt)
insert_new-IsSorted p (q ∷ qs) h = elim (Bool-cases (text_lt p q)) [
  | inl e ↦ rw (e, insert_new) ((e, All-map_of (λ r k. text_lt_trans p q r e k) qs h.0), h)
  | inr e ↦ elim (Bool-cases (text_lt q p)) [
    | inl d ↦
        rw (e, d, insert_new)
          (All-insert_new (λ r. text_lt q r ≡ true) p qs d h.0, insert_new-IsSorted p qs h.1)
    | inr d ↦ rw (e, d, insert_new) h
  ]
]

pub sorted_set-IsSorted : (ps : List Text) → IsSorted (sorted_set ps)
sorted_set-IsSorted [] = tt
sorted_set-IsSorted (p ∷ ps) = insert_new-IsSorted p (sorted_set ps) (sorted_set-IsSorted ps)

-- A text is not below what it begins with.
pub lt_not_starts : (p q : Text) → text_lt p q ≡ true → starts_with p q ≡ false
lt_not_starts [] [] h = cc
lt_not_starts [] (d ∷ ds) h = refl
lt_not_starts (c ∷ cs) [] h = cc
lt_not_starts (c ∷ cs) (d ∷ ds) h = ground (arith, lt_not_starts cs ds)
