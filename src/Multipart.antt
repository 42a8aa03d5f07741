-- ===== src/Multipart.antt =====
-- Multipart arithmetic of app/real_worker.py (`expected_part_size`, `effective_multipart_part_size`,
-- `reusable_multipart_part`, `multipart_audit_matches`). A part number counts from 1.
pub mod Sizes
pub mod Copy
mod Tests
use copy_s3_to_oci.Base.{
  ℕ, zero, suc, ◌+◌, ◌-◌, ◌*◌, ◌/◌, min, max, Bool, true, false, ◌&&◌, Option, none, some, List, [],
  ◌∷◌, ◌==◌, if◌then◌else◌, length, is_some,
}

abbrev pub max_multipart_parts : ℕ
max_multipart_parts = 10000

abbrev pub direct_sha_limit : ℕ
direct_sha_limit = 16 * 1024 * 1024

-- Python's `(part_number - 1) * part_size` is negative at part 0, where the result is a whole part.
unfoldable pub expected_part_size : ℕ → ℕ → ℕ → ℕ
expected_part_size total_size zero part_size = part_size
expected_part_size total_size (suc n) part_size = min part_size (total_size - n * part_size)

unfoldable pub effective_multipart_part_size : ℕ → ℕ → ℕ
effective_multipart_part_size total_size configured_size =
    max (max configured_size ((total_size + max_multipart_parts - 1) / max_multipart_parts))
      direct_sha_limit

-- The number of parts that a copy sends: `(size_bytes + part_size - 1) // part_size`.
unfoldable pub part_count : ℕ → ℕ → ℕ
part_count total_size part_size = (total_size + part_size - 1) / part_size

pub record RemotePart : Type 0 where
  pub etag : ℕ
  pub size : ℕ

-- `evidence` is the stored `sha256` of the part, if there is one.
unfoldable pub reusable_multipart_part : Option RemotePart → Option ℕ → ℕ → Bool
reusable_multipart_part none evidence expected = false
reusable_multipart_part (some remote) evidence expected =
    (remote.size == expected) && is_some evidence

-- The loop over the destination's digests, with the part number it has reached.
audit_from : (ℕ → Option ℕ) → ℕ → List ℕ → Bool
audit_from evidence number [] = true
audit_from evidence number (digest ∷ rest) =
    elim (evidence number) [ none ↦ false | some sha ↦ sha == digest ]
    && audit_from evidence (suc number) rest

-- `entries` is `len(part_evidence)`.
unfoldable pub multipart_audit_matches : ℕ → (ℕ → Option ℕ) → List ℕ → Bool
unfolding audit_from
multipart_audit_matches entries evidence digests =
    if entries == length digests then audit_from evidence 1 digests else false
