-- ===== src/Simulator/Scenarios/Retention.antt =====
-- The stores that the requests of app/simulator_store.py lead to, and the life of a purged scenario.
use copy_s3_to_oci.Base.{
  ℕ, ◌+◌, ◌*◌, ◌≤◌, ◌≡◌, inl, inr, refl, sym, ap, subst, ◌∙◌, true, false, not, ◌&&◌, Option, none,
  some, List, [], ◌==◌, leb, every, find_by, if◌then◌else◌, arith, Bool-cases,
}
use copy_s3_to_oci.Simulator.Scenarios.Ends.{
  IsLatestEnd, is_dated, entered-are_dated, started-are_dated, later-are_dated,
}
use copy_s3_to_oci.Simulator.Scenarios.{
  ScenarioState, ExecutionState, Scenario, Execution, Store, day, is_terminal, same_state,
  is_active, is_quarantined, put_scenario, create_for, create_execution, has_id, enter,
  set_execution_state, apply_housekeeping, restored, restore_scenario, is_ripe, emptied, purge,
  purge_scenario,
}
use copy_s3_to_oci.Simulator.Scenarios.Lawful.{
  IsSettled, is_gone, IsLawful, AreLawful, active-IsLawful, if_holds, none_is_not_some, same_row,
  create_for-AreLawful, enter-AreLawful,
}
use copy_s3_to_oci.Simulator.Scenarios.Ageing.{apply_housekeeping-AreLawful}

-- The stores that requests can lead to, at instants that do not decrease, and the clock then, from a
-- store without executions whose scenarios are active and have no terminal instant.
pub data Reachable : ℕ → Store → Type 0 where
  start :
      (s : Store)
      → s.executions ≡ []
      → ((id : ℕ) (sc : Scenario)
          → s.scenarios id ≡ some sc
          → (sc.state ≡ ScenarioState.active) × (sc.terminal_at ≡ none))
      → Reachable 0 s
  begins :
      (scenario id clock now : ℕ) (s : Store)
      → Reachable clock s
      → clock ≤ now
      → Reachable now (create_execution scenario id now s)
  enters :
      (id clock now : ℕ) (state : ExecutionState) (s : Store)
      → Reachable clock s
      → clock ≤ now
      → Reachable now (set_execution_state id state now s)
  ages :
      (clock now : ℕ) (s : Store)
      → Reachable clock s
      → clock ≤ now
      → Reachable now (apply_housekeeping now s)
  returns : (id clock : ℕ) (s : Store) → Reachable clock s → Reachable clock (restore_scenario id s)
  purges :
      (id reason clock : ℕ) (s : Store)
      → Reachable clock s
      → Reachable clock (purge_scenario id reason s)

put_scenario-AreLawful :
    (id : ℕ) (sc : Scenario) (s : Store)
    → IsLawful s.executions id sc
    → AreLawful s
    → AreLawful (put_scenario id sc s)
put_scenario-AreLawful id sc s new h other x e = elim (Bool-cases (other == id)) [
  | inl is ↦
      let here : id ≡ other = ground arith in
      let row = sym (ap (λ b. if b then some sc else s.scenarios other) is) ∙ e in
      subst (λ k. IsLawful s.executions k x) here
        (subst (IsLawful s.executions id) (same_row refl row) new)
  | inr apart ↦
      let row = sym (ap (λ b. if b then some sc else s.scenarios other) apart) ∙ e in h other x row
]

restored-AreLawful :
    (id : ℕ) (s : Store) (found : Option Scenario)
    → s.scenarios id ≡ found
    → AreLawful s
    → AreLawful (restored id found s)
restored-AreLawful id s none e h = h
restored-AreLawful id s (some sc) e h =
    if_holds AreLawful (is_quarantined sc.state) _ s
      (λ _.
        put_scenario-AreLawful id _ s (active-IsLawful s.executions id _ refl (h id sc e).ending) h)
      (λ _. h)

ripe_state : (st : ScenarioState) → is_ripe st ≡ true → (is_active st ≡ false) × (is_gone st ≡ true)
ripe_state ScenarioState.active e = cc
ripe_state ScenarioState.deprecated e = cc
ripe_state ScenarioState.purge_eligible e = (refl, refl)
ripe_state ScenarioState.purged e = cc

purged-IsLawful :
    (es : List Execution) (id : ℕ) (sc : Scenario)
    → is_ripe sc.state ≡ true
    → IsLawful es id sc
    → IsLawful es id (record sc { state = ScenarioState.purged })
purged-IsLawful es id sc ripe h =
    let (left, gone) = ripe_state sc.state ripe in
    record {
      settled = λ _. h.settled left;
      due = λ _. h.due left;
      ripe = λ _. h.ripe gone;
      ending = h.ending;
    }

purge-AreLawful :
    (id : ℕ) (s : Store) (found : Option Scenario)
    → s.scenarios id ≡ found
    → AreLawful s
    → AreLawful (purge id found s)
purge-AreLawful id s none e h = h
purge-AreLawful id s (some sc) e h =
    if_holds AreLawful (is_ripe sc.state) _ s
      (λ ripe.
        put_scenario-AreLawful id _ (emptied id s)
          (purged-IsLawful s.executions id sc ripe (h id sc e)) h)
      (λ _. h)

created-are_dated :
    (scenario id now : ℕ) (s : Store) (found : Option Scenario)
    → every (is_dated now) s.executions ≡ true
    → every (is_dated now) (create_for scenario id now found s).executions ≡ true
created-are_dated scenario id now s none h = h
created-are_dated scenario id now s (some sc) h =
    if_holds (λ (r : Store). every (is_dated now) r.executions ≡ true) (is_active sc.state) _ s
      (λ _. started-are_dated id scenario now s.executions h) (λ _. h)

enter-are_dated :
    (id now : ℕ) (state : ExecutionState) (s : Store) (found : Option Execution)
    → find_by (has_id id) s.executions ≡ found
    → every (is_dated now) s.executions ≡ true
    → every (is_dated now) (enter id state now found s).executions ≡ true
enter-are_dated id now state s none e h = h
enter-are_dated id now state s (some x) e h =
    if_holds (λ (r : Store). every (is_dated now) r.executions ≡ true)
      (is_terminal x.state && not (same_state x.state state)) s _ (λ _. h)
      (λ allowed. entered-are_dated id now state s.executions x e allowed h)

restored-executions :
    (id : ℕ) (s : Store) (found : Option Scenario) → (restored id found s).executions ≡ s.executions
restored-executions id s none = refl
restored-executions id s (some sc) =
    if_holds (λ (r : Store). r.executions ≡ s.executions) (is_quarantined sc.state) _ s (λ _. refl)
      (λ _. refl)

purge-executions :
    (id : ℕ) (s : Store) (found : Option Scenario) → (purge id found s).executions ≡ s.executions
purge-executions id s none = refl
purge-executions id s (some sc) =
    if_holds (λ (r : Store). r.executions ≡ s.executions) (is_ripe sc.state) _ s (λ _. refl)
      (λ _. refl)

Reachable-are_dated :
    {clock : ℕ} {s : Store} → Reachable clock s → every (is_dated clock) s.executions ≡ true
unfolding create_execution set_execution_state restore_scenario purge_scenario apply_housekeeping
Reachable-are_dated (Reachable.start s fresh h) = ap (every (is_dated 0)) fresh
Reachable-are_dated (Reachable.begins scenario id clock now s r le) =
    created-are_dated scenario id now s (s.scenarios scenario)
      (later-are_dated clock now s.executions le (Reachable-are_dated r))
Reachable-are_dated (Reachable.enters id clock now state s r le) =
    enter-are_dated id now state s (find_by (has_id id) s.executions) refl
      (later-are_dated clock now s.executions le (Reachable-are_dated r))
Reachable-are_dated (Reachable.ages clock now s r le) =
    later-are_dated clock now s.executions le (Reachable-are_dated r)
Reachable-are_dated (Reachable.returns id clock s r) =
    ap (every (is_dated clock)) (restored-executions id s (s.scenarios id)) ∙ Reachable-are_dated r
Reachable-are_dated (Reachable.purges id reason clock s r) =
    if_holds (λ (x : Store). every (is_dated clock) x.executions ≡ true) (leb 10 reason) _ s
      (λ _.
        ap (every (is_dated clock)) (purge-executions id s (s.scenarios id))
        ∙ Reachable-are_dated r)
      (λ _. Reachable-are_dated r)

Reachable-AreLawful : {clock : ℕ} {s : Store} → Reachable clock s → AreLawful s
unfolding create_execution set_execution_state restore_scenario purge_scenario
Reachable-AreLawful (Reachable.start s fresh h) = λ id sc e.
    active-IsLawful s.executions id sc (h id sc e).0
      (λ end at. absurd (none_is_not_some end (sym (h id sc e).1 ∙ at)))
Reachable-AreLawful (Reachable.begins scenario id clock now s r le) =
    create_for-AreLawful scenario id clock now s (s.scenarios scenario) le (Reachable-are_dated r)
      refl (Reachable-AreLawful r)
Reachable-AreLawful (Reachable.enters id clock now state s r le) =
    enter-AreLawful id now state s (find_by (has_id id) s.executions) refl (Reachable-AreLawful r)
Reachable-AreLawful (Reachable.ages clock now s r le) =
    apply_housekeeping-AreLawful now s
      (later-are_dated clock now s.executions le (Reachable-are_dated r)) (Reachable-AreLawful r)
Reachable-AreLawful (Reachable.returns id clock s r) =
    restored-AreLawful id s (s.scenarios id) refl (Reachable-AreLawful r)
Reachable-AreLawful (Reachable.purges id reason clock s r) =
    if_holds AreLawful (leb 10 reason) _ s
      (λ _. purge-AreLawful id s (s.scenarios id) refl (Reachable-AreLawful r))
      (λ _. Reachable-AreLawful r)

-- The life of a purged scenario, of whose executions the last one known at `end` ended then.
pub record IsPurgedInTime (es : List Execution) (id : ℕ) (sc : Scenario) : Type 0 where
  pub end : ℕ
  pub deprecated : ℕ
  pub purgeable : ℕ
  pub terminal : sc.terminal_at ≡ some end
  pub last_end : IsLatestEnd es id end
  pub deprecated_then : sc.deprecated_at ≡ some deprecated
  pub retained : end + sc.retention_days * day ≤ deprecated
  pub purgeable_then : sc.purge_eligible_at ≡ some purgeable
  pub quarantined : deprecated + sc.quarantine_days * day ≤ purgeable
  pub settled : IsSettled es id

-- Whatever requests and housekeepings, at instants that do not decrease, lead from a store
-- without executions to one in which a scenario is purged: an execution of the scenario ended
-- at its terminal instant, and each of its executions ended by that instant or was created no
-- sooner than it; the scenario was deprecated no sooner than its retention after that instant,
-- became purgeable no sooner than its quarantine after the deprecation, and none of its
-- executions may still run.
pub Reachable-keeps_retention :
    {clock : ℕ} {s : Store} (id : ℕ) {sc : Scenario}
    → Reachable clock s
    → s.scenarios id ≡ some sc
    → sc.state ≡ ScenarioState.purged
    → IsPurgedInTime s.executions id sc
Reachable-keeps_retention id {sc} r e gone =
    let h = Reachable-AreLawful r id sc e in
    let (purgeable, deprecated, then_, (marked, (end, terminal, retained)), quarantined) =
      h.ripe (ap is_gone gone) in
    record {
      end = end;
      deprecated = deprecated;
      purgeable = purgeable;
      terminal = terminal;
      last_end = h.ending end terminal;
      deprecated_then = marked;
      retained = retained;
      purgeable_then = then_;
      quarantined = quarantined;
      settled = h.settled (ap is_active gone);
    }
