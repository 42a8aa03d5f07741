-- ===== src/Multipart/Copy/Slices.antt =====
-- The bytes of the parts of an object, put together.
use copy_s3_to_oci.Base.{
  ℕ, zero, suc, ◌+◌, ◌-◌, ◌*◌, ◌<◌, min, ◌≡◌, refl, sym, ap, ◌∙◌, List, [], ◌∷◌, ◌++◌, arith, take,
  drop, leb, leb→le, Bool-cases, inl, inr,
}
use mathlib.Core.List.{append-nil}
use copy_s3_to_oci.Multipart.{expected_part_size, part_count}
use copy_s3_to_oci.Multipart.Sizes.{count_covers}

take_same : (m n : ℕ) (xs : List ℕ) → m ≡ n → take m xs ≡ take n xs
take_same m n xs e = ap (λ (k : ℕ). take k xs) e

take_nil : (n : ℕ) → take {A = ℕ} n [] ≡ []
take_nil zero = refl
take_nil (suc n) = refl

take_add : (a b : ℕ) (xs : List ℕ) → take a xs ++ take b (drop a xs) ≡ take (a + b) xs
take_add zero b xs = take_same b (0 + b) xs (omega arith)
take_add (suc a) b [] = take_nil b ∙ sym (take_nil (suc a + b))
take_add (suc a) b (x ∷ xs) =
    ap (◌∷◌ x) (take_add a b xs) ∙ take_same (suc (a + b)) (suc a + b) (x ∷ xs) (omega arith)

module _ (source : List ℕ) (size part : ℕ) where
  -- The part after the first `k`.
  abbrev pub slice : ℕ → List ℕ
  slice k = take (expected_part_size size (suc k) part) (drop (k * part) source)

  abbrev pub joined : ℕ → List ℕ
  joined zero = []
  joined (suc k) = joined k ++ slice k

  joined-prefix : (k : ℕ) → joined k ≡ take (min size (k * part)) source
  unfolding expected_part_size
  joined-prefix zero = take_same 0 (min size (0 * part)) source (omega arith)
  joined-prefix (suc k) =
      ap (λ xs. xs ++ slice k) (joined-prefix k) ∙ elim (Bool-cases (leb (k * part) size)) [
        | inl fits ↦
            let below = leb→le (k * part) size fits in
            ap (λ xs. xs ++ slice k)
              (take_same (min size (k * part)) (k * part) source (omega arith))
            ∙ take_add (k * part) (min part (size - k * part)) source
            ∙ take_same (k * part + min part (size - k * part)) (min size (suc k * part)) source
                (omega arith)
        | inr over ↦
            let beyond : size < k * part = ground arith in
            ap (λ (n : List ℕ). take (min size (k * part)) source ++ n)
              (take_same (min part (size - k * part)) 0 (drop (k * part) source) (omega arith))
            ∙ append-nil _
            ∙ take_same (min size (k * part)) (min size (suc k * part)) source (omega arith)
      ]

  pub joined-part_count : 0 < part → joined (part_count size part) ≡ take size source
  joined-part_count h =
      joined-prefix (part_count size part)
      ∙ take_same (min size (part_count size part * part)) size source
          (omega (arith, count_covers size part h))
