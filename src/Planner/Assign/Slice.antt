-- ===== src/Planner/Assign/Slice.antt =====
-- Which objects the assignment of a slice takes.
use copy_s3_to_oci.Base.{
  ℕ, ◌≡◌, ◌<◌, ◌⊎◌, inl, inr, refl, Bool, true, none, some, ◌==◌, arith, select, length, order_by,
  min, All, All-take, All-order_by, All-select_self, length-take, length-order_by, count,
  if◌then◌else◌, Bool-cases,
}
use copy_s3_to_oci.Schema.{Db}
use copy_s3_to_oci.Scope.{Text}
use copy_s3_to_oci.Planner.Predict.{Bucket, Profile}
use copy_s3_to_oci.Planner.Pipeline.{discovered}
use copy_s3_to_oci.Planner.Assign.{key_before, next_slice, assign_rows, assign_dynamic_wave_objects}

next_slice-discovered :
    (matches : Text → Text → Bool) (source : ℕ) (prefix : Text) (n : ℕ) (db : Db)
    → All (λ o. discovered matches source prefix o ≡ true) (next_slice matches source prefix n db)
next_slice-discovered matches source prefix n db =
    All-take (λ o. discovered matches source prefix o ≡ true) n
      (order_by key_before (select (discovered matches source prefix) db.objects))
      (All-order_by (λ o. discovered matches source prefix o ≡ true) key_before
        (select (discovered matches source prefix) db.objects)
        (All-select_self (discovered matches source prefix) db.objects))

length-next_slice :
    (matches : Text → Text → Bool) (source : ℕ) (prefix : Text) (n : ℕ) (db : Db)
    → length (next_slice matches source prefix n db)
      ≡ min n (count (discovered matches source prefix) db.objects)
length-next_slice matches source prefix n db =
    let found = select (discovered matches source prefix) db.objects in
    omega (arith, length-take n (order_by key_before found), length-order_by key_before found)

-- The assignment of a slice of n objects either raises, where fewer than n are discovered in
-- the selection, or gives to the wave the next slice, of exactly n rows, each of which was
-- discovered in the selection.
pub assign_dynamic_wave_objects-takes :
    (matches : Text → Text → Bool) (profiles : Bucket → Profile) (part_mib max_mbps wave source : ℕ)
    (prefix : Text) (n : ℕ) (db : Db)
    → let rows = next_slice matches source prefix n db in
      ((count (discovered matches source prefix) db.objects < n)
        × (assign_dynamic_wave_objects matches profiles part_mib max_mbps wave source prefix n db
            ≡ none))
      ⊎ ((length rows ≡ n)
          × All (λ o. discovered matches source prefix o ≡ true) rows
          × (assign_dynamic_wave_objects matches profiles part_mib max_mbps wave source prefix n db
              ≡ some (assign_rows profiles part_mib max_mbps wave rows db)))
unfolding assign_dynamic_wave_objects
assign_dynamic_wave_objects-takes matches profiles part_mib max_mbps wave source prefix n db =
    elim (Bool-cases (length (next_slice matches source prefix n db) == n)) [
      | inl e ↦ inr (
        ground arith,
        next_slice-discovered matches source prefix n db,
        rw (e, if◌then◌else◌) refl,
      )
      | inr e ↦
          inl (
            ground (arith, length-next_slice matches source prefix n db),
            rw (e, if◌then◌else◌) refl,
          )
    ]
