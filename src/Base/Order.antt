-- ===== src/Base/Order.antt =====
-- `order_by`: a stable sort by a Boolean test "stands before or level with".
use Prim.Native.Nat.{ℕ, suc, ◌+◌}
use mathlib.Core.Path.{◌≡◌, refl, ap, ◌∙◌}
use mathlib.Core.Logic.{inl, inr}
use mathlib.Core.Bool.{Bool, ◌||◌}
use mathlib.Core.List.{List, [], ◌∷◌}
use native.Mathlib.Omega.{arith}
use copy_s3_to_oci.Base.Tests.{if◌then◌else◌, Bool-cases}
use copy_s3_to_oci.Base.Rows.{any}
use copy_s3_to_oci.Base.Lists.{length, total, All}

module _ {ℓ} {A : Type ℓ} where
  abbrev pub insert_by : (A → A → Bool) → A → List A → List A
  insert_by before x [] = x ∷ []
  insert_by before x (y ∷ ys) = if before x y then x ∷ y ∷ ys else y ∷ insert_by before x ys

  abbrev pub order_by : (A → A → Bool) → List A → List A
  order_by before [] = []
  order_by before (x ∷ xs) = insert_by before x (order_by before xs)

  pub All-insert_by {κ} :
      (P : A → Type κ) (before : A → A → Bool) (x : A) (ys : List A)
      → P x
      → All P ys
      → All P (insert_by before x ys)
  All-insert_by P before x [] px h = (px, tt)
  All-insert_by P before x (y ∷ ys) px h = elim (Bool-cases (before x y)) [
    | inl e ↦ rw (e, insert_by) (px, h)
    | inr e ↦ rw (e, insert_by) (h.0, All-insert_by P before x ys px h.1)
  ]

  pub All-order_by {κ} :
      (P : A → Type κ) (before : A → A → Bool) (xs : List A) → All P xs → All P (order_by before xs)
  All-order_by P before [] h = tt
  All-order_by P before (x ∷ xs) h =
      All-insert_by P before x (order_by before xs) h.0 (All-order_by P before xs h.1)

  length-insert_by :
      (before : A → A → Bool) (x : A) (ys : List A)
      → length (insert_by before x ys) ≡ suc (length ys)
  length-insert_by before x [] = refl
  length-insert_by before x (y ∷ ys) = ground (arith, length-insert_by before x ys)

  pub length-order_by :
      (before : A → A → Bool) (xs : List A) → length (order_by before xs) ≡ length xs
  length-order_by before [] = refl
  length-order_by before (x ∷ xs) =
      omega (arith, length-insert_by before x (order_by before xs), length-order_by before xs)

  total-insert_by :
      (f : A → ℕ) (before : A → A → Bool) (x : A) (ys : List A)
      → total f (insert_by before x ys) ≡ f x + total f ys
  total-insert_by f before x [] = refl
  total-insert_by f before x (y ∷ ys) = ground (arith, total-insert_by f before x ys)

  pub total-order_by :
      (f : A → ℕ) (before : A → A → Bool) (xs : List A) → total f (order_by before xs) ≡ total f xs
  total-order_by f before [] = refl
  total-order_by f before (x ∷ xs) =
      omega (arith, total-insert_by f before x (order_by before xs), total-order_by f before xs)

  any-insert_by :
      (p : A → Bool) (before : A → A → Bool) (x : A) (ys : List A)
      → any p (insert_by before x ys) ≡ (p x || any p ys)
  any-insert_by p before x [] = refl
  any-insert_by p before x (y ∷ ys) = ground (arith, any-insert_by p before x ys)

  pub any-order_by :
      (p : A → Bool) (before : A → A → Bool) (xs : List A) → any p (order_by before xs) ≡ any p xs
  any-order_by p before [] = refl
  any-order_by p before (x ∷ xs) =
      any-insert_by p before x (order_by before xs) ∙ ap (λ b. p x || b) (any-order_by p before xs)
