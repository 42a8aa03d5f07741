-- ===== src/Simulator/Catalog/Sizes.antt =====
-- The sizes of the objects of a catalog, summed.
use native.Mathlib.Nat.{mul-div_cancel, le-div_iff_mul-le, div-mul-le_self, zero-div}
use copy_s3_to_oci.Base.{
  ℕ, suc, zero, ◌+◌, ◌-◌, ◌*◌, ◌/◌, ◌≤◌, ◌<◌, ◌≡◌, refl, sym, ap, ◌∙◌, List, [], ◌∷◌, arith, total,
  length, some, ◌==◌, if◌then◌else◌, false,
}
use copy_s3_to_oci.Simulator.Catalog.{weight, weights_from, allocate, materialized_sizes}

div_mono : (a b k : ℕ) → 0 < k → a ≤ b → a / k ≤ b / k
div_mono a b k pos h = (le-div_iff_mul-le pos).1 (omega (arith, div-mul-le_self a k, h))

allocate-total :
    (logical whole : ℕ)
    → 0 < whole
    → (cumulative allocated : ℕ) (ws : List ℕ) → allocated ≡ logical * cumulative / whole
    → allocated + total (λ n. n) (allocate logical whole cumulative allocated ws)
      ≡ logical * (cumulative + total (λ w. w) ws) / whole
unfolding allocate
allocate-total logical whole pos cumulative allocated [] e =
    let same : cumulative ≡ cumulative + 0 = omega arith in
    omega (arith, e) ∙ ap (λ c. logical * c / whole) same
allocate-total logical whole pos cumulative allocated (w ∷ ws) e =
    let next = logical * (cumulative + w) / whole in
    let rest = allocate-total logical whole pos (cumulative + w) next ws refl in
    let grows : logical * cumulative / whole ≤ next = div_mono _ _ whole pos (omega arith) in
    let sum : cumulative + w + total (λ w. w) ws ≡ cumulative + (w + total (λ w. w) ws) =
      omega arith in
    let telescoped : allocated
          + ((next - allocated) + total (λ n. n) (allocate logical whole (cumulative + w) next ws))
        ≡ next + total (λ n. n) (allocate logical whole (cumulative + w) next ws) =
      omega (arith, e, grows) in
    telescoped ∙ rest ∙ ap (λ c. logical * c / whole) sum

weight-pos : (f : ℕ) → 0 < weight f
unfolding weight
weight-pos f = ground arith

weights-pos :
    (fraction : ℕ → ℕ) (index n : ℕ) → 0 < total (λ w. w) (weights_from fraction index (suc n))
unfolding weights_from
weights-pos fraction index n = omega (arith, weight-pos (fraction index))

length-allocate :
    (logical whole cumulative allocated : ℕ) (ws : List ℕ)
    → length (allocate logical whole cumulative allocated ws) ≡ length ws
unfolding allocate
length-allocate logical whole cumulative allocated [] = refl
length-allocate logical whole cumulative allocated (w ∷ ws) =
    ap suc (length-allocate logical whole (cumulative + w) _ ws)

length-weights_from : (fraction : ℕ → ℕ) (index n : ℕ) → length (weights_from fraction index n) ≡ n
unfolding weights_from
length-weights_from fraction index zero = refl
length-weights_from fraction index (suc n) = ap suc (length-weights_from fraction (index + 1) n)

whole-total :
    (logical : ℕ) (ws : List ℕ)
    → 0 < total (λ w. w) ws
    → total (λ n. n) (allocate logical (total (λ w. w) ws) 0 0 ws) ≡ logical
whole-total logical ws pos =
    let whole = total (λ w. w) ws in
    let none_yet : logical * 0 ≡ 0 = omega arith in
    let sum : 0 + whole ≡ whole = omega arith in
    let start : 0 ≡ logical * 0 / whole = sym (ap (λ n. n / whole) none_yet ∙ zero-div whole) in
    let all = allocate-total logical whole pos 0 0 ws start in
    let left : total (λ n. n) (allocate logical whole 0 0 ws)
        ≡ 0 + total (λ n. n) (allocate logical whole 0 0 ws) =
      omega arith in
    left ∙ all ∙ ap (λ c. logical * c / whole) sum ∙ mul-div_cancel logical pos

-- The catalog of a scenario with at least one object has as many objects as asked for, and
-- their sizes add up to exactly its logical size, whatever the hash.
pub materialized_sizes-total :
    (fraction : ℕ → ℕ) (count logical : ℕ)
    → 1 ≤ count
    → (sizes : List ℕ) × (materialized_sizes fraction count logical ≡ some sizes)
      × (total (λ n. n) sizes ≡ logical)
      × (length sizes ≡ count)
unfolding materialized_sizes
materialized_sizes-total fraction zero logical h = absurd (omega (arith, h))
materialized_sizes-total fraction (suc n) logical h =
    let weights = weights_from fraction 0 (suc n) in
    let counted : (suc n == 0) ≡ false = ground arith in
    (
      allocate logical (total (λ w. w) weights) 0 0 weights,
      rw (counted, if◌then◌else◌) refl,
      whole-total logical weights (weights-pos fraction 0 n),
      length-allocate logical (total (λ w. w) weights) 0 0 weights
          ∙ length-weights_from fraction 0 (suc n),
    )
