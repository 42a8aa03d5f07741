-- ===== src/Planner/Tests.antt =====
-- A plan of six objects under small limits, and its schedule.
use copy_s3_to_oci.Base.{
  none, count, true, false, ℕ, ◌≤◌, ◌≡◌, refl, some, List, [], ◌∷◌, All, arith, drop, map, Pairs,
  Bool,
}
use copy_s3_to_oci.Schema.{Tier, PipelineRun, RunStatus, Wave, WaveStatus, Db, is_completed_run}
use copy_s3_to_oci.Samples.{wave, run, idle}
use copy_s3_to_oci.Scope.{Text, starts_with}
use copy_s3_to_oci.Planner.Predict.{Bucket, Profile}
use copy_s3_to_oci.Planner.Assign.{next_slice, assign_rows, assign_dynamic_wave_objects}
use copy_s3_to_oci.Planner.Pipeline.{discovered, in_selection, judged, refresh_dynamic_pipeline_run}
use copy_s3_to_oci.Planner.Pipeline.Status.{IsRefreshed, refresh_dynamic_pipeline_run-completes}
use copy_s3_to_oci.Planner.Dynamic.{Plan, Slice, dynamic_wave_plan, next_dynamic_wave_plan}
use copy_s3_to_oci.Planner.Dynamic.Slices.{next_dynamic_wave_plan-unrolls}
use copy_s3_to_oci.Planner.Dynamic.Limits.{IsFit, dynamic_wave_plan-fits}
use copy_s3_to_oci.Planner.Schedule.{Forecast, dynamic_schedule_times}

-- At most 100 bytes and 2 objects a wave; each object is forecast as one second of a worker.
abbrev small : Plan
small = record {
  max_bytes = 100;
  target_seconds = 60;
  max_objects = 2;
  predict = λ size. (1000000, 0);
  lane_samples = 0;
  worker_rate = 1000;
  lane_rate = 1000;
}

abbrev sizes : List ℕ
sizes = 60 ∷ 30 ∷ 5 ∷ 200 ∷ 50 ∷ 60 ∷ []

-- The third object is one too many, the fourth is too large, the last does not fit.
counts : map (λ s. s.object_count) (dynamic_wave_plan small sizes) ≡ 2 ∷ 1 ∷ 1 ∷ 1 ∷ 1 ∷ []
unfolding dynamic_wave_plan
counts = refl

dynamic_wave_plan-fits_example : All (IsFit small) (dynamic_wave_plan small sizes)
dynamic_wave_plan-fits_example = dynamic_wave_plan-fits small sizes (omega arith)

next_dynamic_wave_plan-unrolls_example :
    (s : Slice) × (next_dynamic_wave_plan small sizes ≡ some s)
    × (1 ≤ s.object_count)
    × (dynamic_wave_plan small sizes ≡ s ∷ dynamic_wave_plan small (drop s.object_count sizes))
next_dynamic_wave_plan-unrolls_example =
    next_dynamic_wave_plan-unrolls small 60 (30 ∷ 5 ∷ 200 ∷ 50 ∷ 60 ∷ [])

abbrev forecasts : List Forecast
forecasts =
    record { restore_tier = Tier.bulk; predicted_transfer_seconds = 3600 }
    ∷ record { restore_tier = Tier.standard; predicted_transfer_seconds = 7200 }
    ∷ []

times : dynamic_schedule_times 1000 forecasts 600 ≡ (1000, 173800) ∷ (133600, 177400) ∷ []
unfolding dynamic_schedule_times
times = refl

-- The filter of a database whose prefixes have no wildcard.
abbrev has_prefix : Text → Text → Bool
has_prefix prefix key = starts_with key prefix

abbrev earlier : Wave
earlier = record (wave 10 1 WaveStatus.restoring) {
  planned_transfer_start_at = some 500000;
  predicted_transfer_seconds = 3600;
}

-- Two runs, of which the first has a wave that was completed; its selection holds no object.
abbrev piped : Db
piped = record idle {
  runs = record run { selection_prefix = 120 ∷ [] } ∷ record run { id = 2 } ∷ [];
  waves = record (wave 10 1 WaveStatus.completed) { pipeline_run_id = some 1 } ∷ [];
}

refreshed :
    map
      (λ r. is_completed_run r.status)
      (refresh_dynamic_pipeline_run has_prefix 100 run piped).runs
    ≡ true ∷ false ∷ []
unfolding refresh_dynamic_pipeline_run discovered in_selection
refreshed = refl

refresh_dynamic_pipeline_run-completes_example :
    Pairs
      (IsRefreshed has_prefix piped 1)
      piped.runs
      (refresh_dynamic_pipeline_run has_prefix 100 run piped).runs
refresh_dynamic_pipeline_run-completes_example =
    refresh_dynamic_pipeline_run-completes has_prefix 100 run piped

abbrev archived : PipelineRun
archived = record run { status = RunStatus.historical }

-- Object 2 of the sample is still to be discovered, so the run goes on.
reopened :
    (judged has_prefix idle 100 archived (WaveStatus.completed ∷ [])).status ≡ RunStatus.scheduled
unfolding judged
reopened = refl

abbrev profiles : Bucket → Profile
profiles = λ b. record { samples = 0; p75_ms = 0 }

-- A slice of two objects is refused, since one is discovered.
short : assign_dynamic_wave_objects has_prefix profiles 64 1000 10 1 [] 2 idle ≡ none
unfolding assign_dynamic_wave_objects discovered in_selection
short = refl

-- What is taken is not discovered any more.
taken :
    let rows = next_slice has_prefix 1 [] 1 idle in
    count (discovered has_prefix 1 []) (assign_rows profiles 64 1000 10 rows idle).objects ≡ 0
unfolding discovered in_selection
taken = refl
