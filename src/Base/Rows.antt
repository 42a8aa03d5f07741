-- ===== src/Base/Rows.antt =====
-- Queries over a table that is a list of rows: `select ... where`, `update ... where`, `get`.
use Prim.Native.Nat.{ℕ, suc, ◌+◌}
use mathlib.Core.Path.{◌≡◌, refl, ap}
use mathlib.Core.Logic.{inl, inr}
use mathlib.Core.Bool.{Bool, true, false, ◌&&◌, ◌||◌}
use mathlib.Core.List.{List, [], ◌∷◌, ◌++◌}
use mathlib.Core.Option
use mathlib.Core.Option.{Option, none, some}
use native.Mathlib.Omega.{arith}
use copy_s3_to_oci.Base.Tests.{if◌then◌else◌, Bool-cases}
use copy_s3_to_oci.Base.Lists.{length, All}

module _ {ℓ} {A : Type ℓ} where
  -- `select(...).where(p)`, in the table's order.
  abbrev pub select : (A → Bool) → List A → List A
  select p [] = []
  select p (x ∷ xs) = if p x then x ∷ select p xs else select p xs

  -- Assignments to the fields of each row that a query returned.
  abbrev pub update_where : (A → Bool) → (A → A) → List A → List A
  update_where p f [] = []
  update_where p f (x ∷ xs) = (if p x then f x else x) ∷ update_where p f xs

  -- `session.scalar(select(...).limit(1))`: the first row that fits.
  abbrev pub find_by : (A → Bool) → List A → Option A
  find_by p [] = none
  find_by p (x ∷ xs) = if p x then some x else find_by p xs

  abbrev pub any : (A → Bool) → List A → Bool
  any p [] = false
  any p (x ∷ xs) = p x || any p xs

  abbrev pub every : (A → Bool) → List A → Bool
  every p [] = true
  every p (x ∷ xs) = p x && every p xs

  -- `select(func.count()).where(p)`.
  abbrev pub count : (A → Bool) → List A → ℕ
  count p xs = length (select p xs)

  pub All-select_self : (p : A → Bool) (xs : List A) → All (λ x. p x ≡ true) (select p xs)
  All-select_self p [] = tt
  All-select_self p (x ∷ xs) = ground (arith, All-select_self p xs)

  pub All-select {κ} :
      (P : A → Type κ) (p : A → Bool) (xs : List A) → All P xs → All P (select p xs)
  All-select P p [] h = tt
  All-select P p (x ∷ xs) h = elim (Bool-cases (p x)) [
    | inl e ↦ rw (e, select) (h.0, All-select P p xs h.1)
    | inr e ↦ rw (e, select) (All-select P p xs h.1)
  ]

  pub All-update_where {κ μ} :
      {P : A → Type κ} {Q : A → Type μ} (p : A → Bool) (f : A → A)
      → ((x : A) → P x → p x ≡ true → Q (f x))
      → ((x : A) → P x → p x ≡ false → Q x)
      → (xs : List A) → All P xs
      → All Q (update_where p f xs)
  All-update_where p f hit miss [] h = tt
  All-update_where p f hit miss (x ∷ xs) h = elim (Bool-cases (p x)) [
    | inl e ↦ rw (e, update_where) (hit x h.0 e, All-update_where p f hit miss xs h.1)
    | inr e ↦ rw (e, update_where) (miss x h.0 e, All-update_where p f hit miss xs h.1)
  ]

  -- What one update establishes of every row, with no assumption on the table.
  pub All-update_where_any {μ} :
      {Q : A → Type μ} (p : A → Bool) (f : A → A)
      → ((x : A) → p x ≡ true → Q (f x))
      → ((x : A) → p x ≡ false → Q x)
      → (xs : List A) → All Q (update_where p f xs)
  All-update_where_any p f hit miss [] = tt
  All-update_where_any p f hit miss (x ∷ xs) = elim (Bool-cases (p x)) [
    | inl e ↦ rw (e, update_where) (hit x e, All-update_where_any p f hit miss xs)
    | inr e ↦ rw (e, update_where) (miss x e, All-update_where_any p f hit miss xs)
  ]

  pub length-update_where :
      (p : A → Bool) (f : A → A) (xs : List A) → length (update_where p f xs) ≡ length xs
  length-update_where p f [] = refl
  length-update_where p f (x ∷ xs) = ap suc (length-update_where p f xs)

  pub find_by-holds : (p : A → Bool) (xs : List A) {x : A} → find_by p xs ≡ some x → p x ≡ true
  find_by-holds p [] e = cc
  find_by-holds p (y ∷ xs) e = elim (Bool-cases (p y)) [
    | inl t ↦ ground arith
    | inr t ↦ find_by-holds p xs (rw (t, find_by) at e)
  ]

  pub All-find_by {κ} :
      (P : A → Type κ) (p : A → Bool) (xs : List A) {x : A} → All P xs → find_by p xs ≡ some x → P x
  All-find_by P p [] h e = cc
  All-find_by P p (y ∷ xs) {x} h e = elim (Bool-cases (p y)) [
    | inl t ↦ ground arith
    | inr t ↦ All-find_by P p xs h.1 (rw (t, find_by) at e)
  ]

  pub any-none : (p : A → Bool) (xs : List A) → any p xs ≡ false → All (λ x. p x ≡ false) xs
  any-none p [] h = tt
  any-none p (x ∷ xs) h = ground (arith, any-none p xs)

  pub All-not_any : (p : A → Bool) (xs : List A) → All (λ x. p x ≡ false) xs → any p xs ≡ false
  All-not_any p [] h = refl
  All-not_any p (x ∷ xs) h = ground (arith, All-not_any p xs h.1)

  pub select-none : (p : A → Bool) (xs : List A) → All (λ x. p x ≡ false) xs → select p xs ≡ []
  select-none p [] h = refl
  select-none p (x ∷ xs) h = ground (arith, select-none p xs h.1)

  pub none-select : (p : A → Bool) (xs : List A) → select p xs ≡ [] → All (λ x. p x ≡ false) xs
  none-select p [] h = tt
  none-select p (x ∷ xs) h = elim (Bool-cases (p x)) [
    | inl e ↦ cc (rw (e, select) at h)
    | inr e ↦ (e, none-select p xs (rw (e, select) at h))
  ]

  pub any_of_select :
      (p : A → Bool) (xs : List A) {x : A} {ys : List A} → select p xs ≡ x ∷ ys → any p xs ≡ true
  any_of_select p [] e = cc
  any_of_select p (y ∷ xs) e = elim (Bool-cases (p y)) [
    | inl t ↦ rw (t, any) refl
    | inr t ↦ rw (t, any) (any_of_select p xs (rw (t, select) at e))
  ]

  -- A lookup by a column that the update keeps finds the updated row.
  pub find_by-update_where :
      (q p : A → Bool) (f : A → A) (xs : List A)
      → ((x : A) → q (f x) ≡ q x)
      → find_by q (update_where p f xs) ≡ Option.map (λ x. if p x then f x else x) (find_by q xs)
  find_by-update_where q p f [] same = refl
  find_by-update_where q p f (x ∷ xs) same =
      ground (arith, same x, find_by-update_where q p f xs same)

  pub count-added :
      (p : A → Bool) (xs : List A) (x : A)
      → count p (xs ++ x ∷ []) ≡ count p xs + (if p x then 1 else 0)
  count-added p [] x = ground arith
  count-added p (y ∷ xs) x = ground (arith, count-added p xs x)
