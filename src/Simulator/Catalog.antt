-- ===== src/Simulator/Catalog.antt =====
-- `_weight` and the loop of `materialize` in app/simulation_engine.py that splits the logical size
-- of a scenario over its objects. The hash behind `_fraction` is the parameter `fraction`, an index's
-- first eight bytes of SHA-256; the bounds of the bands are compared without rounding.
pub mod Sizes
use copy_s3_to_oci.Base.{
  ℕ, suc, zero, ◌+◌, ◌-◌, ◌*◌, ◌/◌, ◌^◌, List, [], ◌∷◌, ltb, if◌then◌else◌, total, Option, none,
  some, ◌==◌,
}

-- 60, 25, 10 and 5 percent.
unfoldable pub weight : ℕ → ℕ
weight fraction =
    if ltb (fraction * 100) (60 * (2 ^ 64 - 1))
    then 1
    else if ltb (fraction * 100) (85 * (2 ^ 64 - 1))
    then 64
    else if ltb (fraction * 100) (95 * (2 ^ 64 - 1))
    then 1024
    else 8192

-- `_weight(seed, index) for index in range(object_count)`, from an index on.
pub weights_from : (ℕ → ℕ) → ℕ → ℕ → List ℕ
unfolding weight
weights_from fraction index zero = []
weights_from fraction index (suc n) = weight (fraction index) ∷ weights_from fraction (index + 1) n

-- The loop, after `cumulative` weight and `allocated` bytes.
pub allocate : ℕ → ℕ → ℕ → ℕ → List ℕ → List ℕ
allocate logical weight_total cumulative allocated [] = []
allocate logical weight_total cumulative allocated (w ∷ ws) =
    let next = logical * (cumulative + w) / weight_total in
    (next - allocated) ∷ allocate logical weight_total (cumulative + w) next ws

-- The sizes of the objects; none where `object_count` is refused.
unfoldable pub materialized_sizes : (ℕ → ℕ) → ℕ → ℕ → Option (List ℕ)
unfolding weights_from allocate
materialized_sizes fraction count logical =
    let weights = weights_from fraction 0 count in
    if count == 0 then none else some (allocate logical (total (λ w. w) weights) 0 0 weights)
