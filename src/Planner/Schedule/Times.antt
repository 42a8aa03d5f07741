-- ===== src/Planner/Schedule/Times.antt =====
-- When the planned restores and transfers are due.
use copy_s3_to_oci.Base.{
  ℕ, ◌+◌, ◌-◌, ◌*◌, ◌≤◌, ◌≡◌, max, none, some, List, [], ◌∷◌, arith, refl, ◌⊎◌,
}
use copy_s3_to_oci.Schema.{Wave, PipelineRun}
use copy_s3_to_oci.Planner.Schedule.{
  Forecast, restore_service_window_seconds, automatic_dynamic_duration_limit, schedule_from,
  dynamic_schedule_times, first_tier, last_wave, or_now, transfer_start, dynamic_wave_schedule,
}

-- For a retention of at least one day, the window for the copy and the reserve add up to the
-- retention, and the reserve is at least eight hours and at least a quarter of it.
pub automatic_dynamic_duration_limit-fits :
    (days : ℕ)
    → 1 ≤ days
    → let (limit, reserve) = automatic_dynamic_duration_limit days in
      (limit + reserve ≡ days * 86400) × (28800 ≤ reserve) × (days * 86400 ≤ 4 * reserve)
unfolding automatic_dynamic_duration_limit
automatic_dynamic_duration_limit-fits days h = (omega arith, omega arith, omega arith)

-- One lane: each transfer begins where the one before it is predicted to end, and no restore is
-- requested in the past or, unless at once, less than the service window before its transfer.
abbrev pub InLane : ℕ → ℕ → List Forecast → List (ℕ × ℕ) → Type 0
InLane now start [] times = times ≡ []
InLane now start (plan ∷ plans) times =
    (at : ℕ) × (rest : List (ℕ × ℕ)) × (times ≡ (at, start) ∷ rest)
    × (now ≤ at)
    × ((at ≡ now) ⊎ (at + restore_service_window_seconds plan.restore_tier ≤ start))
    × InLane now (start + plan.predicted_transfer_seconds) plans rest

restore_at-leads :
    (now start window safety : ℕ)
    → let at = max now (start - (window + safety)) in (at ≡ now) ⊎ (at + window ≤ start)
restore_at-leads now start window safety = ground arith

schedule_from-InLane :
    (now safety start : ℕ) (plans : List Forecast)
    → InLane now start plans (schedule_from now safety start plans)
unfolding schedule_from
schedule_from-InLane now safety start [] = refl
schedule_from-InLane now safety start (plan ∷ plans) =
    let window = restore_service_window_seconds plan.restore_tier in
    (
      max now (start - (window + safety)),
      schedule_from now safety (start + plan.predicted_transfer_seconds) plans,
      refl,
      omega arith,
      restore_at-leads now start window safety,
      schedule_from-InLane now safety (start + plan.predicted_transfer_seconds) plans,
    )

-- The forecast schedule is one lane: the first transfer begins after the service window of its
-- tier, each later one when the one before it is predicted to end, and no restore is requested
-- before now or, unless requested at once, later than the service window before its transfer.
pub dynamic_schedule_times-InLane :
    (now safety : ℕ) (plans : List Forecast)
    → InLane now
        (now + restore_service_window_seconds (first_tier plans))
        plans
        (dynamic_schedule_times now plans safety)
unfolding dynamic_schedule_times
dynamic_schedule_times-InLane now safety plans =
    schedule_from-InLane now safety (now + restore_service_window_seconds (first_tier plans)) plans

-- A wave scheduled after others begins its transfer no sooner than the last of them is
-- predicted to end and no sooner than the service window from now; its restore is requested not
-- before now and at least the service window before the transfer.
pub dynamic_wave_schedule-follows :
    (run : PipelineRun) (prior : List Wave) (w : Wave) (now : ℕ)
    → last_wave none prior ≡ some w
    → let (restore_at, start) = dynamic_wave_schedule run prior now in
      let window = restore_service_window_seconds run.restore_tier in
      (or_now w.planned_transfer_start_at now + max 1 w.predicted_transfer_seconds ≤ start)
      × (now + window ≤ start)
      × (now ≤ restore_at)
      × (restore_at + window ≤ start)
unfolding dynamic_wave_schedule transfer_start
dynamic_wave_schedule-follows run prior w now e =
    rw e (omega arith, omega arith, omega arith, omega arith)
