-- ===== src/Base/Related.antt =====
-- Two lists whose entries are related one by one: a table before and after updates of its rows.
use mathlib.Core.Path.{◌≡◌}
use mathlib.Core.Logic.{inl, inr}
use mathlib.Core.Bool.{Bool, true}
use mathlib.Core.List.{List, [], ◌∷◌}
use copy_s3_to_oci.Base.Tests.{Bool-cases}
use copy_s3_to_oci.Base.Rows.{update_where}

module _ {ℓ} {A : Type ℓ} (R : A → A → Type 0) where
  abbrev pub Pairs : List A → List A → Type 0
  Pairs [] [] = Unit
  Pairs [] (y ∷ ys) = ⊥
  Pairs (x ∷ xs) [] = ⊥
  Pairs (x ∷ xs) (y ∷ ys) = R x y × Pairs xs ys

  pub Pairs-self : ((x : A) → R x x) → (xs : List A) → Pairs xs xs
  Pairs-self same [] = tt
  Pairs-self same (x ∷ xs) = (same x, Pairs-self same xs)

  pub Pairs-update_where :
      (p : A → Bool) (f : A → A)
      → ((x y : A) → R x y → p y ≡ true → R x (f y))
      → (xs ys : List A) → Pairs xs ys
      → Pairs xs (update_where p f ys)
  Pairs-update_where p f step [] [] h = tt
  Pairs-update_where p f step [] (y ∷ ys) h = absurd h
  Pairs-update_where p f step (x ∷ xs) [] h = absurd h
  Pairs-update_where p f step (x ∷ xs) (y ∷ ys) h = elim (Bool-cases (p y)) [
    | inl e ↦ rw (e, update_where) (step x y h.0 e, Pairs-update_where p f step xs ys h.1)
    | inr e ↦ rw (e, update_where) (h.0, Pairs-update_where p f step xs ys h.1)
  ]
