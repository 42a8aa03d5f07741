-- ===== src/Multipart/Tests.antt =====
-- Runs of the multipart arithmetic.
use copy_s3_to_oci.Base.{◌≡◌, refl}
use copy_s3_to_oci.Multipart.{expected_part_size, part_count}

last_part : expected_part_size 130 3 64 ≡ 2
unfolding expected_part_size
last_part = refl

three_parts : part_count 130 64 ≡ 3
unfolding part_count
three_parts = refl
