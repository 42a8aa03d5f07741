-- ===== src/Simulator/Scenarios.antt =====
-- Scenarios and their executions in app/simulator_store.py: `create_execution`, `set_execution_state`,
-- `apply_housekeeping`, `restore_scenario` and `purge_scenario`. Instants are seconds. The table of scenarios
-- is read by its primary key; a refused request leaves the store as it was. Templates, configurations and
-- the payload tables that a purge empties are left out, but for the objects and operations.
pub mod Retention
pub mod Ends
pub mod Lawful
pub mod Ageing
mod Tests
use copy_s3_to_oci.Base.{
  ℕ, zero, suc, ◌+◌, ◌*◌, max, Bool, true, false, not, ◌&&◌, ◌||◌, Option, none, some, List, [],
  ◌∷◌, ◌++◌, ◌==◌, leb, any, select, find_by, map, if◌then◌else◌, length,
}

pub data ScenarioState : Type 0 where
  active : ScenarioState
  deprecated : ScenarioState
  purge_eligible : ScenarioState
  purged : ScenarioState

pub data ExecutionState : Type 0 where
  created : ExecutionState
  running : ExecutionState
  succeeded : ExecutionState
  failed : ExecutionState
  cancelled : ExecutionState

abbrev pub is_terminal : ExecutionState → Bool
is_terminal ExecutionState.created = false
is_terminal ExecutionState.running = false
is_terminal _ = true

abbrev pub same_state : ExecutionState → ExecutionState → Bool
same_state ExecutionState.created ExecutionState.created = true
same_state ExecutionState.running ExecutionState.running = true
same_state ExecutionState.succeeded ExecutionState.succeeded = true
same_state ExecutionState.failed ExecutionState.failed = true
same_state ExecutionState.cancelled ExecutionState.cancelled = true
same_state _ _ = false

abbrev pub is_running : ExecutionState → Bool
is_running state = same_state ExecutionState.running state

abbrev pub is_active : ScenarioState → Bool
is_active ScenarioState.active = true
is_active _ = false

abbrev pub is_quarantined : ScenarioState → Bool
is_quarantined ScenarioState.deprecated = true
is_quarantined ScenarioState.purge_eligible = true
is_quarantined _ = false

pub record Scenario : Type 0 where
  pub state : ScenarioState
  pub retention_days : ℕ
  pub quarantine_days : ℕ
  pub terminal_at : Option ℕ
  pub deprecated_at : Option ℕ
  pub purge_eligible_at : Option ℕ

pub record Execution : Type 0 where
  pub id : ℕ
  pub scenario : ℕ
  pub state : ExecutionState
  pub created_at : ℕ
  pub real_started_at : Option ℕ
  pub real_finished_at : Option ℕ

-- `objects` and `operations` name the scenario and the execution that a row belongs to.
pub record Store : Type 0 where
  pub scenarios : ℕ → Option Scenario
  pub executions : List Execution
  pub objects : List ℕ
  pub operations : List ℕ
  pub tombstones : List ℕ

abbrev pub day : ℕ
day = 86400

abbrev pub put_scenario : ℕ → Scenario → Store → Store
put_scenario id sc s = record s {
  scenarios = λ other. if other == id then some sc else s.scenarios other;
}

-- The row that `session.get` has found is changed.
abbrev pub update_first :
    (Execution → Bool) → (Execution → Execution) → List Execution → List Execution
update_first p f [] = []
update_first p f (e ∷ es) = if p e then f e ∷ es else e ∷ update_first p f es

abbrev pub or_now : Option ℕ → ℕ → Option ℕ
or_now none now = some now
or_now (some at) now = some at

abbrev pub started_execution : ℕ → ℕ → ℕ → Execution
started_execution id scenario now = record {
  id = id;
  scenario = scenario;
  state = ExecutionState.created;
  created_at = now;
  real_started_at = none;
  real_finished_at = none;
}

abbrev pub create_for : ℕ → ℕ → ℕ → Option Scenario → Store → Store
create_for scenario id now none s = s
create_for scenario id now (some sc) s =
    if is_active sc.state
    then record s { executions = s.executions ++ started_execution id scenario now ∷ [] }
    else s

-- `id` is the new key.
unfoldable pub create_execution : ℕ → ℕ → ℕ → Store → Store
create_execution scenario id now s = create_for scenario id now (s.scenarios scenario) s

abbrev pub entered : ExecutionState → ℕ → Execution → Execution
entered state now e = record e {
  state = state;
  real_started_at = if is_running state then or_now e.real_started_at now else e.real_started_at;
  real_finished_at =
      if is_terminal state then or_now e.real_finished_at now else e.real_finished_at;
}

abbrev pub has_id : ℕ → Execution → Bool
has_id id e = e.id == id

abbrev pub enter : ℕ → ExecutionState → ℕ → Option Execution → Store → Store
enter id state now none s = s
enter id state now (some e) s =
    if is_terminal e.state && not (same_state e.state state)
    then s
    else record s { executions = update_first (has_id id) (entered state now) s.executions }

unfoldable pub set_execution_state : ℕ → ExecutionState → ℕ → Store → Store
set_execution_state id state now s = enter id state now (find_by (has_id id) s.executions) s

abbrev pub belongs : ℕ → Execution → Bool
belongs scenario e = e.scenario == scenario

abbrev pub ended_at : Execution → ℕ
ended_at e = elim e.real_finished_at [ none ↦ e.created_at | some at ↦ at ]

abbrev pub latest : List Execution → ℕ
latest [] = 0
latest (e ∷ es) = max (ended_at e) (latest es)

abbrev pub deprecate : ScenarioState → ℕ → ℕ → Scenario → Scenario
deprecate ScenarioState.active terminal now sc =
    if leb (terminal + sc.retention_days * day) now
    then record sc { state = ScenarioState.deprecated; deprecated_at = some now }
    else sc
deprecate _ terminal now sc = sc

abbrev pub release_quarantine : ScenarioState → Option ℕ → ℕ → Scenario → Scenario
release_quarantine ScenarioState.deprecated (some at) now sc =
    if leb (at + sc.quarantine_days * day) now
    then record sc { state = ScenarioState.purge_eligible; purge_eligible_at = some now }
    else sc
release_quarantine _ at now sc = sc

abbrev pub known_terminal : Option ℕ → List Execution → ℕ
known_terminal none es = latest es
known_terminal (some at) es = at

abbrev pub aged : ℕ → ℕ → Scenario → Scenario
aged terminal now sc =
    let after = deprecate sc.state terminal now (record sc { terminal_at = some terminal }) in
    release_quarantine after.state after.deprecated_at now after

abbrev pub is_live : Execution → Bool
is_live e = not (is_terminal e.state)

abbrev pub is_empty : List Execution → Bool
is_empty [] = true
is_empty (e ∷ es) = false

abbrev pub is_ageing : ScenarioState → Bool
is_ageing ScenarioState.active = true
is_ageing ScenarioState.deprecated = true
is_ageing _ = false

-- One turn of the loop, over the executions of the scenario.
abbrev pub housekept : List Execution → ℕ → Scenario → Scenario
housekept es now sc =
    if is_ageing sc.state && not (is_empty es || any is_live es)
    then aged (known_terminal sc.terminal_at es) now sc
    else sc

abbrev pub housekept_row : Option Scenario → List Execution → ℕ → Option Scenario
housekept_row none es now = none
housekept_row (some sc) es now = some (housekept es now sc)

unfoldable pub apply_housekeeping : ℕ → Store → Store
apply_housekeeping now s = record s {
  scenarios = λ id. housekept_row (s.scenarios id) (select (belongs id) s.executions) now;
}

abbrev pub restored : ℕ → Option Scenario → Store → Store
restored id none s = s
restored id (some sc) s =
    if is_quarantined sc.state
    then put_scenario id
        (record sc { state = ScenarioState.active; deprecated_at = none; purge_eligible_at = none })
        s
    else s

unfoldable pub restore_scenario : ℕ → Store → Store
restore_scenario id s = restored id (s.scenarios id) s

abbrev pub is_ripe : ScenarioState → Bool
is_ripe ScenarioState.purge_eligible = true
is_ripe _ = false

abbrev pub is_of : ℕ → List Execution → ℕ → Bool
is_of scenario es operation = any (λ e. belongs scenario e && (e.id == operation)) es

abbrev pub emptied : ℕ → Store → Store
emptied id s = record s {
  objects = select (λ owner. not (owner == id)) s.objects;
  operations = select (λ operation. not (is_of id s.executions operation)) s.operations;
  tombstones = s.tombstones ++ id ∷ [];
}

abbrev pub purge : ℕ → Option Scenario → Store → Store
purge id none s = s
purge id (some sc) s =
    if is_ripe sc.state
    then put_scenario id (record sc { state = ScenarioState.purged }) (emptied id s)
    else s

-- `reason` is the length of the stripped reason.
unfoldable pub purge_scenario : ℕ → ℕ → Store → Store
purge_scenario id reason s = if leb 10 reason then purge id (s.scenarios id) s else s
