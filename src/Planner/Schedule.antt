-- ===== src/Planner/Schedule.antt =====
-- `restore_service_window_seconds`, `automatic_dynamic_duration_limit`, `dynamic_schedule_times`,
-- `dynamic_wave_schedule` and `refresh_dynamic_pipeline_run` of app/main.py. Instants are seconds.
pub mod Times
use copy_s3_to_oci.Base.{
  ℕ, ◌+◌, ◌-◌, ◌*◌, ◌/◌, max, Bool, true, false, ◌&&◌, not, Option, none, some, List, [], ◌∷◌, ◌==◌,
  leb, map, select, any, every, count, holds, if◌then◌else◌,
}
use copy_s3_to_oci.Schema.{
  Tier, Wave, WaveStatus, ObjectRecord, PipelineRun, RunStatus, Db, is_closed, is_completed_run,
  is_discovered,
}

unfoldable pub restore_service_window_seconds : Tier → ℕ
restore_service_window_seconds Tier.bulk = 48 * 3600
restore_service_window_seconds Tier.standard = 12 * 3600
restore_service_window_seconds Tier.expedited = 12 * 3600

-- The window for the copy, and the reserve. `ceil(retention * .25)` is exact: a day is 86,400 s.
unfoldable pub automatic_dynamic_duration_limit : ℕ → ℕ × ℕ
automatic_dynamic_duration_limit restore_days =
    let retention = restore_days * 24 * 3600 in
    let reserve = max (8 * 3600) ((retention + 3) / 4) in (max 300 (retention - reserve), reserve)

pub record Forecast : Type 0 where
  pub restore_tier : Tier
  pub predicted_transfer_seconds : ℕ

abbrev pub first_tier : List Forecast → Tier
first_tier [] = Tier.bulk
first_tier (plan ∷ plans) = plan.restore_tier

pub schedule_from : ℕ → ℕ → ℕ → List Forecast → List (ℕ × ℕ)
unfolding restore_service_window_seconds
schedule_from now safety start [] = []
schedule_from now safety start (plan ∷ plans) =
    (max now (start - (restore_service_window_seconds plan.restore_tier + safety)), start)
    ∷ schedule_from now safety (start + plan.predicted_transfer_seconds) plans

unfoldable pub dynamic_schedule_times : ℕ → List Forecast → ℕ → List (ℕ × ℕ)
unfolding schedule_from
dynamic_schedule_times now plans safety =
    schedule_from now safety (now + restore_service_window_seconds (first_tier plans)) plans

-- `prior_waves[-1]`.
abbrev pub last_wave : Option Wave → List Wave → Option Wave
last_wave last [] = last
last_wave last (w ∷ ws) = last_wave (some w) ws

abbrev pub or_now : Option ℕ → ℕ → ℕ
or_now none now = now
or_now (some at) now = at

-- The earliest start after the service window and after the wave before.
unfoldable pub transfer_start : PipelineRun → Option Wave → ℕ → ℕ
unfolding restore_service_window_seconds
transfer_start run none now = now + restore_service_window_seconds run.restore_tier
transfer_start run (some w) now =
    max (now + restore_service_window_seconds run.restore_tier)
      (or_now w.planned_transfer_start_at now + max 1 w.predicted_transfer_seconds)

-- The restore request and the transfer.
unfoldable pub dynamic_wave_schedule : PipelineRun → List Wave → ℕ → ℕ × ℕ
unfolding transfer_start
dynamic_wave_schedule run prior now =
    let start = transfer_start run (last_wave none prior) now in
    (
      max now
          (start - (restore_service_window_seconds run.restore_tier + run.restore_safety_seconds)),
      start,
    )
