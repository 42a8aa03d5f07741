-- ===== src/Simulator/Scenarios/Lawful.antt =====
-- What holds of every scenario and its executions, and that new executions and the states they enter
-- keep it.
use copy_s3_to_oci.Base.{
  ℕ, ◌+◌, ◌*◌, ◌≤◌, ◌≡◌, inl, inr, refl, sym, ap, ◌∙◌, Bool, true, false, not, ◌&&◌, Option, none,
  some, List, [], ◌∷◌, ◌++◌, ◌==◌, every, find_by, if◌then◌else◌, All, arith, Bool-cases,
  All-append,
}
use copy_s3_to_oci.Simulator.Scenarios.Ends.{
  IsLatestEnd, is_dated, same_state-keeps, append-IsLatestEnd, entered-IsLatestEnd,
}
use copy_s3_to_oci.Simulator.Scenarios.{
  ScenarioState, ExecutionState, Scenario, Execution, Store, day, is_terminal, same_state,
  is_active, update_first, started_execution, create_for, entered, has_id, enter, belongs,
}

-- No execution of the scenario is left that may run.
abbrev pub IsSettled : List Execution → ℕ → Type 0
IsSettled es id = All (λ e. belongs id e ≡ true → is_terminal e.state ≡ true) es

-- The scenario was deprecated at that instant, its retention over.
abbrev pub IsDue : Scenario → ℕ → Type 0
IsDue sc at =
    (sc.deprecated_at ≡ some at)
    × ((end : ℕ) × (sc.terminal_at ≡ some end) × (end + sc.retention_days * day ≤ at))

abbrev pub is_gone : ScenarioState → Bool
is_gone ScenarioState.purge_eligible = true
is_gone ScenarioState.purged = true
is_gone _ = false

-- It could be purged at that instant, its quarantine over.
abbrev pub IsRipe : Scenario → Type 0
IsRipe sc =
    (at : ℕ) × (due : ℕ) × (sc.purge_eligible_at ≡ some at)
    × IsDue sc due
    × (due + sc.quarantine_days * day ≤ at)

pub record IsLawful (es : List Execution) (id : ℕ) (sc : Scenario) : Type 0 where
  pub settled : is_active sc.state ≡ false → IsSettled es id
  pub due : is_active sc.state ≡ false → (at : ℕ) × IsDue sc at
  pub ripe : is_gone sc.state ≡ true → IsRipe sc
  pub ending : (end : ℕ) → sc.terminal_at ≡ some end → IsLatestEnd es id end

abbrev pub HasEnding : List Execution → ℕ → Scenario → Type 0
HasEnding es id sc = (end : ℕ) → sc.terminal_at ≡ some end → IsLatestEnd es id end

abbrev pub AreLawful : Store → Type 0
AreLawful s = (id : ℕ) (sc : Scenario) → s.scenarios id ≡ some sc → IsLawful s.executions id sc

pub active-IsLawful :
    (es : List Execution) (id : ℕ) (sc : Scenario)
    → sc.state ≡ ScenarioState.active
    → HasEnding es id sc
    → IsLawful es id sc
active-IsLawful es id sc e ends = record {
  settled = λ bad. cc;
  due = λ bad. cc;
  ripe = λ bad. cc;
  ending = ends;
}

settled-IsLawful :
    (es es' : List Execution) (id : ℕ) (sc : Scenario)
    → (is_active sc.state ≡ false → IsSettled es id → IsSettled es' id)
    → ((end : ℕ) → IsLatestEnd es id end → IsLatestEnd es' id end)
    → IsLawful es id sc
    → IsLawful es' id sc
settled-IsLawful es es' id sc f g h = record {
  settled = λ left. f left (h.settled left);
  due = h.due;
  ripe = h.ripe;
  ending = λ end e. g end (h.ending end e);
}

-- A new execution belongs to an active scenario.
added-IsSettled :
    (es : List Execution) (id scenario new now : ℕ)
    → (scenario == id) ≡ false
    → IsSettled es id
    → IsSettled (es ++ started_execution new scenario now ∷ []) id
added-IsSettled es id scenario new now apart h = All-append _ es _ h ((λ here. cc), tt)

pub if_holds {ℓ κ} :
    {A : Type ℓ} (P : A → Type κ) (b : Bool) (x y : A)
    → (b ≡ true → P x)
    → (b ≡ false → P y)
    → P (if b then x else y)
if_holds P true x y f g = f refl
if_holds P false x y f g = g refl

pub none_is_not_some : (end : ℕ) → ¬ (◌≡◌ {A = Option ℕ} none (some end))
none_is_not_some end e = cc

pub same_row : {o : Option Scenario} {a b : Scenario} → o ≡ some a → o ≡ some b → a ≡ b
same_row e f = cc

apart_of :
    (s : Store) (scenario id : ℕ) (sc sc' : Scenario)
    → s.scenarios scenario ≡ some sc
    → s.scenarios id ≡ some sc'
    → is_active sc.state ≡ true
    → is_active sc'.state ≡ false
    → (scenario == id) ≡ false
apart_of s scenario id sc sc' e f open_ left = elim (Bool-cases (scenario == id)) [
  | inr other ↦ other
  | inl is ↦
      let same : scenario ≡ id = ground arith in
      let one = same_row e (ap s.scenarios same ∙ f) in
      let bad = sym open_ ∙ ap (λ (x : Scenario). is_active x.state) one ∙ left in cc
]

pub create_for-AreLawful :
    (scenario id clock now : ℕ) (s : Store) (found : Option Scenario)
    → clock ≤ now
    → every (is_dated clock) s.executions ≡ true
    → s.scenarios scenario ≡ found
    → AreLawful s
    → AreLawful (create_for scenario id now found s)
create_for-AreLawful scenario id clock now s none le dated e h = h
create_for-AreLawful scenario id clock now s (some sc) le dated e h =
    if_holds AreLawful (is_active sc.state) _ s
      (λ open_ id' sc' found.
        settled-IsLawful s.executions _ id' sc'
          (λ left.
            added-IsSettled s.executions id' scenario id now
              (apart_of s scenario id' sc sc' e found open_ left))
          (λ end. append-IsLatestEnd s.executions id' end clock id scenario now le dated)
          (h id' sc' found))
      (λ _. h)

update_first-IsSettled :
    (id : ℕ) (state : ExecutionState) (now scenario : ℕ) (es : List Execution)
    → ((e : Execution)
        → find_by (has_id id) es ≡ some e
        → is_terminal e.state ≡ true
        → is_terminal state ≡ true)
    → IsSettled es scenario
    → IsSettled (update_first (has_id id) (entered state now) es) scenario
update_first-IsSettled id state now scenario [] f h = tt
update_first-IsSettled id state now scenario (e ∷ es) f (here, rest) =
    elim (Bool-cases (has_id id e)) [
      | inl is ↦ rw (is, if◌then◌else◌) ((λ of. f e (rw (is, if◌then◌else◌) refl) (here of)), rest)
      | inr other ↦
          rw (other, if◌then◌else◌)
            (
              here,
              update_first-IsSettled id state now scenario es
                  (λ x g. f x (rw (other, if◌then◌else◌) g)) rest,
            )
    ]

state_of : {a b : Execution} → some a ≡ some b → a.state ≡ b.state
state_of e = cc

pub enter-AreLawful :
    (id now : ℕ) (state : ExecutionState) (s : Store) (found : Option Execution)
    → find_by (has_id id) s.executions ≡ found
    → AreLawful s
    → AreLawful (enter id state now found s)
enter-AreLawful id now state s none e h = h
enter-AreLawful id now state s (some x) e h =
    if_holds AreLawful (is_terminal x.state && not (same_state x.state state)) s _ (λ _. h)
      (λ allowed id' sc' row.
        settled-IsLawful s.executions _ id' sc'
          (λ _. update_first-IsSettled id state now id' s.executions (λ y g ended.
            same_state-keeps x.state state (ap is_terminal (state_of (sym e ∙ g)) ∙ ended) allowed))
          (λ end. entered-IsLatestEnd id now state s.executions x e allowed id' end)
          (h id' sc' row))
