-- ===== src/Simulator/Scenarios/Tests.antt =====
-- A scenario that runs once, is deprecated after its retention and purged after its quarantine.
use copy_s3_to_oci.Base.{
  arith, Bool, true, false, ◌+◌, ◌*◌, ◌≡◌, refl, none, some, [], ◌∷◌, ◌==◌, if◌then◌else◌,
}
use copy_s3_to_oci.Simulator.Scenarios.{
  Scenario, ScenarioState, ExecutionState, Store, day, create_execution, set_execution_state,
  apply_housekeeping, purge_scenario,
}
use copy_s3_to_oci.Simulator.Scenarios.Retention.{
  Reachable, IsPurgedInTime, Reachable-keeps_retention,
}

abbrev chosen : Scenario
chosen = record {
  state = ScenarioState.active;
  retention_days = 60;
  quarantine_days = 30;
  terminal_at = none;
  deprecated_at = none;
  purge_eligible_at = none;
}

abbrev fresh : Store
fresh = record {
  scenarios = λ id. if id == 7 then some chosen else none;
  executions = [];
  objects = 7 ∷ 8 ∷ 7 ∷ [];
  operations = 1 ∷ 1 ∷ [];
  tombstones = [];
}

abbrev ended : Store
unfolding create_execution set_execution_state
ended =
    set_execution_state 1 ExecutionState.succeeded 500
      (set_execution_state 1 ExecutionState.running 100 (create_execution 7 1 50 fresh))

abbrev aged_twice : Store
unfolding apply_housekeeping ended
aged_twice = apply_housekeeping (90 * day + 501) (apply_housekeeping (60 * day + 500) ended)

abbrev final : Store
unfolding purge_scenario aged_twice
final = purge_scenario 7 12 aged_twice

final_objects : final.objects ≡ 8 ∷ []
unfolding final
final_objects = refl

active_as :
    {sc : Scenario}
    → some chosen ≡ some sc
    → (sc.state ≡ ScenarioState.active) × (sc.terminal_at ≡ none)
active_as e = (cc, cc)

fresh_active :
    (b : Bool) (sc : Scenario)
    → (if b then some chosen else none) ≡ some sc
    → (sc.state ≡ ScenarioState.active) × (sc.terminal_at ≡ none)
fresh_active true sc e = active_as e
fresh_active false sc e = (cc, cc)

final-Reachable : Reachable (90 * day + 501) final
unfolding final
final-Reachable = Reachable.purges 7 12 (90 * day + 501) _ (
    Reachable.ages (60 * day + 500) (90 * day + 501) _
      (Reachable.ages 500 (60 * day + 500) _
        (Reachable.enters 1 100 500 ExecutionState.succeeded _
          (Reachable.enters 1 50 100 ExecutionState.running _
            (Reachable.begins 7 1 0 50 fresh
              (Reachable.start fresh refl (λ id sc e. fresh_active (id == 7) sc e)) (omega arith))
            (omega arith))
          (omega arith))
        (omega arith))
      (omega arith))

abbrev purged : Scenario
purged = record chosen {
  state = ScenarioState.purged;
  terminal_at = some 500;
  deprecated_at = some (60 * day + 500);
  purge_eligible_at = some (90 * day + 501);
}

final-purged : final.scenarios 7 ≡ some purged
unfolding final
final-purged = refl

Reachable-keeps_retention_example : IsPurgedInTime final.executions 7 purged
Reachable-keeps_retention_example = Reachable-keeps_retention 7 final-Reachable final-purged refl
