-- ===== src/Simulator/Tests.antt =====
-- A range of five bytes, in chunks of two, from two blocks of zeros, and a small catalog.
use copy_s3_to_oci.Base.{ℕ, suc, zero, ◌≡◌, refl, ap, List, [], ◌∷◌, ◌*◌, ◌^◌, length, some, arith}
use copy_s3_to_oci.Simulator.Payload.{Bytes, iter_deterministic_range, block_bytes}
use copy_s3_to_oci.Simulator.Payload.Ranges.{join, bytes_from, iter_deterministic_range-join}
use copy_s3_to_oci.Simulator.Catalog.{materialized_sizes}

zeros : ℕ → Bytes
zeros zero = []
zeros (suc n) = 0 ∷ zeros n

length-zeros : (n : ℕ) → length (zeros n) ≡ n
unfolding zeros
length-zeros zero = refl
length-zeros (suc n) = ap suc (length-zeros n)

iter_deterministic_range-join_example :
    (chunks : List Bytes) × (iter_deterministic_range
        (λ i. zeros block_bytes)
        2000000
        1048574
        (some 5)
        2
      ≡ some chunks)
    × (join chunks ≡ bytes_from (λ i. zeros block_bytes) 1048574 5)
iter_deterministic_range-join_example =
    iter_deterministic_range-join (λ i. zeros block_bytes) 2000000 1048574 2 (some 5)
      (λ i. length-zeros block_bytes) (omega arith) (omega arith) (omega arith)

abbrev fractions : ℕ → ℕ
fractions index = index * 2 ^ 62

-- Three objects of weight 1 and one of weight 64.
four : materialized_sizes fractions 4 1000 ≡ some (14 ∷ 15 ∷ 15 ∷ 956 ∷ [])
unfolding materialized_sizes
four = refl
