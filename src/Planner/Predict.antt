-- ===== src/Planner/Predict.antt =====
-- `prediction_bucket`, `percentile_75`, `percentile_25`, `predict_size_transfer_seconds` and
-- `predicted_continuous_lane_seconds` of app/main.py. Observed durations are milliseconds and rates
-- kilobits a second. A forecast of worker time is kept in units of 1/w ms, with w the rate of one
-- worker, and one of lane time in units of 1/(5 w r) ms, with r the rate of the lane: with these
-- units every quotient of the source is exact.
use copy_s3_to_oci.Base.{
  ℕ, ◌+◌, ◌-◌, ◌*◌, ◌/◌, ◌^◌, min, max, ◌&&◌, Option, none, some, List, ltb, leb, ◌==◌, length,
  select, get_elem?, order_by, if◌then◌else◌,
}

pub data Bucket : Type 0 where
  multipart up_to_1_mib up_to_16_mib up_to_256_mib large_single_part : Bucket

abbrev pub mib : ℕ
mib = 1024 ^ 2

unfoldable pub prediction_bucket : ℕ → ℕ → Bucket
prediction_bucket size part_mib =
    if leb (part_mib * mib) size
    then Bucket.multipart
    else if leb size mib
    then Bucket.up_to_1_mib
    else if leb size (16 * mib)
    then Bucket.up_to_16_mib
    else if leb size (256 * mib)
    then Bucket.up_to_256_mib
    else Bucket.large_single_part

abbrev pub or_0 : Option ℕ → ℕ
or_0 none = 0
or_0 (some n) = n

abbrev pub positive_sorted : List ℕ → List ℕ
positive_sorted values = order_by leb (select (λ v. ltb 0 v) values)

-- `ceil(n * .75)` and `ceil(n * .25)`.
abbrev pub three_quarters : ℕ → ℕ
three_quarters n = (3 * n + 3) / 4

abbrev pub quarter : ℕ → ℕ
quarter n = (n + 3) / 4

unfoldable pub percentile_75 : List ℕ → ℕ
percentile_75 values =
    let ordered = positive_sorted values in
    or_0 (get_elem? ordered (min (length ordered - 1) (three_quarters (length ordered) - 1)))

unfoldable pub percentile_25 : List ℕ → ℕ
percentile_25 values =
    let ordered = positive_sorted values in or_0 (get_elem? ordered (quarter (length ordered) - 1))

-- What `transfer_history_profiles` knows of a bucket.
pub record Profile : Type 0 where
  pub samples : ℕ
  pub p75_ms : ℕ

-- `throughput_per_worker`, of a limit in Mbit/s.
abbrev pub worker_kbps : ℕ → ℕ
worker_kbps max_mbps = max 1000 (max_mbps * 200)

-- The estimate without history: overhead, the object's share of the link, the multipart setup.
unfoldable pub cold_estimate : ℕ → ℕ → ℕ → ℕ
cold_estimate part_mib w size =
    1250 * w
    + size * 8
    + (if leb (part_mib * mib) size
        then (1000 + (size + part_mib * mib - 1) / (part_mib * mib) * 80) * w
        else 0)

-- The forecast and the number of samples behind it.
unfoldable pub predict_size_transfer : (Bucket → Profile) → ℕ → ℕ → ℕ → ℕ × ℕ
unfolding prediction_bucket cold_estimate
predict_size_transfer profiles part_mib max_mbps size =
    let profile = profiles (prediction_bucket size part_mib) in
    let w = worker_kbps max_mbps in
    if leb 5 profile.samples && ltb 0 profile.p75_ms
    then (profile.p75_ms * w, profile.samples)
    else (max (250 * w) (cold_estimate part_mib w size), 0)

-- What `continuous_lane_capacity_profile` tells of the lane.
pub record LaneProfile : Type 0 where
  pub samples : ℕ
  pub effective_kbps : ℕ

abbrev pub lane_kbps : LaneProfile → ℕ → ℕ
lane_kbps lane max_mbps =
    max 1000 (if lane.effective_kbps == 0 then max_mbps * 1000 else lane.effective_kbps)

-- One second, in the units of lane time.
abbrev pub second : ℕ → ℕ → ℕ
second w r = 5000 * (w * r)

-- With samples, the link alone; without, the slower of the link and of five workers. Then 30 s.
unfoldable pub lane_time : ℕ → ℕ → ℕ → ℕ → ℕ → ℕ
lane_time samples w r bytes predicted =
    (if ltb 0 samples then 40 * (w * bytes) else max (40 * (w * bytes)) (predicted * r))
    + 30 * second w r
