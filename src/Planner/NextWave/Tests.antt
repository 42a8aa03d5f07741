-- ===== src/Planner/NextWave/Tests.antt =====
-- A wave of at most 100 bytes from an inventory in no order.
use copy_s3_to_oci.Base.{ℕ, arith, ◌≡◌, refl, Bool, false, List, [], ◌∷◌, ltb, select, order_by}
use copy_s3_to_oci.Simulator.Pages.{by_key}
use copy_s3_to_oci.Planner.NextWave.{Candidate, rank_of, scan, next_wave_objects}
use copy_s3_to_oci.Planner.NextWave.OnePass.{ended, IsSized, next_wave_objects-scan}

abbrev candidate : ℕ → ℕ → Candidate
candidate rank size = record { rank = rank; size_bytes = size }

abbrev candidates : List Candidate
candidates = candidate 3 50 ∷ candidate 1 40 ∷ candidate 4 10 ∷ candidate 2 30 ∷ []

abbrev unlocked : Candidate → Bool
unlocked o = ltb o.rank 4

next_wave_objects-scan_example :
    (next_wave_objects unlocked 100 candidates 4
      ≡ ended (scan 100 [] 100 (order_by (by_key rank_of) (select unlocked candidates))))
    × IsSized 100 (next_wave_objects unlocked 100 candidates 4)
next_wave_objects-scan_example =
    next_wave_objects-scan unlocked 100 4 candidates ((refl, (refl, tt)), ((refl, tt), (tt, tt)))
      (omega arith)

two_chosen :
    ended (scan 100 [] 100 (order_by (by_key rank_of) (select unlocked candidates)))
    ≡ (candidate 1 40 ∷ candidate 2 30 ∷ [], false)
unfolding scan
two_chosen = refl
