-- ===== src/Multipart/Sizes.antt =====
-- The parts of a copy cover the object exactly, and there are never more than OCI allows.
use native.Mathlib.Nat.{div-lt_iff_lt-mul, div-add-mod, mod-lt}
use copy_s3_to_oci.Base.{ℕ, zero, suc, ◌+◌, ◌-◌, ◌*◌, ◌/◌, ◌≤◌, ◌<◌, min, ◌≡◌, arith}
use copy_s3_to_oci.Multipart.{
  expected_part_size, effective_multipart_part_size, part_count, max_multipart_parts,
}

-- The bytes of parts 1 to n.
abbrev pub sent : ℕ → ℕ → ℕ → ℕ
sent total part zero = 0
sent total part (suc n) = sent total part n + expected_part_size total (suc n) part

sent-min : (total part n : ℕ) → sent total part n ≡ min total (n * part)
unfolding expected_part_size
sent-min total part zero = omega arith
sent-min total part (suc n) = omega (arith, sent-min total part n)

pub count_covers : (total part : ℕ) → 0 < part → total ≤ part_count total part * part
unfolding part_count
count_covers total part h =
    grind (arith, div-add-mod (total + part - 1) part, mod-lt (total + part - 1) h)

-- The parts of a copy, from the first to the last, add up to exactly the object's size, for any
-- positive part size.
pub sent-part_count : (total part : ℕ) → 0 < part → sent total part (part_count total part) ≡ total
sent-part_count total part h =
    omega (arith, sent-min total part (part_count total part), count_covers total part h)

count_bound :
    (total part : ℕ)
    → 0 < part
    → (total + max_multipart_parts - 1) / max_multipart_parts ≤ part
    → part_count total part ≤ max_multipart_parts
unfolding part_count
count_bound total part h fits =
    let below : (total + part - 1) / part < 10001 = (div-lt_iff_lt-mul h).1 (omega arith) in
    omega (arith, below)

-- With the effective part size a copy has at most 10,000 parts, whatever part size is
-- configured, and the effective size is not below the configured one.
pub part_count-le_max :
    (total configured : ℕ)
    → (part_count total (effective_multipart_part_size total configured) ≤ max_multipart_parts)
      × (configured ≤ effective_multipart_part_size total configured)
unfolding effective_multipart_part_size
part_count-le_max total configured = (count_bound total _ (omega arith) (omega arith), omega arith)
