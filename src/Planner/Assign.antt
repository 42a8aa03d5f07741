-- ===== src/Planner/Assign.antt =====
-- `assign_dynamic_wave_objects` of app/main.py, which gives the next slice of a dynamic plan to its
-- wave. RuntimeError is `none`; the updates of 5000 rows each are one.
pub mod Slice
use copy_s3_to_oci.Base.{
  ℕ, Bool, ◌&&◌, ◌||◌, not, Option, none, some, List, ◌==◌, ◌/◌, any, select, take, length,
  order_by, update_where, ltb, if◌then◌else◌,
}
use copy_s3_to_oci.Schema.{ObjectRecord, ObjectState, Wave, Db}
use copy_s3_to_oci.Scope.{Text, text_lt}
use copy_s3_to_oci.Planner.Predict.{Bucket, Profile, worker_kbps, predict_size_transfer}
use copy_s3_to_oci.Planner.Pipeline.{discovered}

-- `order_by(ObjectRecord.object_key, ObjectRecord.id)`.
abbrev pub key_before : ObjectRecord → ObjectRecord → Bool
key_before a b =
    text_lt a.object_key b.object_key
    || not (text_lt b.object_key a.object_key) && not (ltb b.id a.id)

abbrev pub next_slice : (Text → Text → Bool) → ℕ → Text → ℕ → Db → List ObjectRecord
next_slice matches source prefix object_count db =
    take object_count (order_by key_before (select (discovered matches source prefix) db.objects))

-- The forecast in milliseconds, from the unit of Planner.Predict.
abbrev pub planned_ms : (Bucket → Profile) → ℕ → ℕ → ℕ → ℕ
planned_ms profiles part_mib max_mbps size =
    (predict_size_transfer profiles part_mib max_mbps size).0 / worker_kbps max_mbps

abbrev pub assigned : (Bucket → Profile) → ℕ → ℕ → ℕ → ObjectRecord → ObjectRecord
assigned profiles part_mib max_mbps wave o = record o {
  wave_id = some wave;
  state = ObjectState.wave_assigned;
  planned_transfer_ms = planned_ms profiles part_mib max_mbps o.size_bytes;
}

abbrev pub assign_rows : (Bucket → Profile) → ℕ → ℕ → ℕ → List ObjectRecord → Db → Db
assign_rows profiles part_mib max_mbps wave rows db = record db {
  objects =
      update_where (λ o. any (λ r. r.id == o.id) rows) (assigned profiles part_mib max_mbps wave)
        db.objects;
}

unfoldable pub assign_dynamic_wave_objects :
    (Text → Text → Bool) → (Bucket → Profile) → ℕ → ℕ → ℕ → ℕ → Text → ℕ → Db → Option Db
assign_dynamic_wave_objects matches profiles part_mib max_mbps wave source prefix object_count db =
    let rows = next_slice matches source prefix object_count db in
    if length rows == object_count
    then some (assign_rows profiles part_mib max_mbps wave rows db)
    else none
