-- ===== src/Simulator/Scenarios/Ageing.antt =====
-- What a housekeeping keeps of the scenarios.
use mathlib.Core.Option.{some-injective}
use copy_s3_to_oci.Base.{
  ℕ, ◌+◌, ◌*◌, ◌≡◌, refl, sym, ap, subst, ◌∙◌, Bool, true, false, not, ◌&&◌, ◌||◌, Option, none,
  some, List, [], ◌∷◌, leb, leb→le, &&-left, &&-right, any, every, select, if◌then◌else◌, arith,
}
use copy_s3_to_oci.Simulator.Scenarios.Ends.{IsLatestEnd, is_dated, latest-IsLatestEnd}
use copy_s3_to_oci.Simulator.Scenarios.{
  ScenarioState, Scenario, Execution, Store, day, is_terminal, is_active, belongs, deprecate,
  release_quarantine, known_terminal, latest, aged, is_live, is_empty, is_ageing, housekept,
  housekept_row, apply_housekeeping,
}
use copy_s3_to_oci.Simulator.Scenarios.Lawful.{
  IsSettled, IsDue, IsLawful, HasEnding, AreLawful, active-IsLawful, if_holds, same_row,
}

quiet_of : (a b : Bool) → not (a || b) ≡ true → b ≡ false
quiet_of true b e = cc
quiet_of false true e = cc
quiet_of false false e = refl

some_of : (a b : Bool) → not (a || b) ≡ true → a ≡ false
some_of true b e = cc
some_of false b e = refl

any_kept :
    (b : Bool) (e : Execution) (rest : List Execution)
    → any is_live (if b then e ∷ rest else rest) ≡ false
    → (b ≡ true → is_terminal e.state ≡ true) × (any is_live rest ≡ false)
any_kept true e rest h = (λ _. ground arith, ground arith)
any_kept false e rest h = (λ bad. cc, h)

select-IsSettled :
    (id : ℕ) (es : List Execution) → any is_live (select (belongs id) es) ≡ false → IsSettled es id
select-IsSettled id [] h = tt
select-IsSettled id (e ∷ es) h =
    let (here, rest) = any_kept (belongs id e) e (select (belongs id) es) h in
    (here, select-IsSettled id es rest)

terminal-IsDue :
    (sc : Scenario) (at : ℕ) (es : List Execution)
    → IsDue sc at
    → IsDue (record sc { terminal_at = some (known_terminal sc.terminal_at es) }) at
terminal-IsDue sc at es (e, (end, f, over)) =
    (e, (end, ap (λ o. some (known_terminal o es)) f, over))

module _ (es : List Execution) (id now : ℕ) where
  ripened-IsLawful :
      (sc : Scenario) (at : ℕ)
      → sc.state ≡ ScenarioState.deprecated
      → IsSettled es id
      → IsDue sc at
      → HasEnding es id sc
      → IsLawful es id (release_quarantine sc.state sc.deprecated_at now sc)
  ripened-IsLawful sc at e settled due ends =
      subst (λ st. IsLawful es id (release_quarantine st sc.deprecated_at now sc)) (sym e)
        (subst (λ o. IsLawful es id (release_quarantine ScenarioState.deprecated o now sc))
          (sym due.0)
          (if_holds (IsLawful es id) (leb (at + sc.quarantine_days * day) now) _ sc
            (λ over. record {
              settled = λ _. settled;
              due = λ _. (at, due);
              ripe = λ _. (now, at, refl, due, leb→le _ _ over);
              ending = ends;
            })
            (λ _. record {
              settled = λ _. settled;
              due = λ _. (at, due);
              ripe = λ bad. cc;
              ending = ends;
            })))

  Released : Scenario → Type 0
  Released sc = IsLawful es id (release_quarantine sc.state sc.deprecated_at now sc)

  active-Released :
      (sc : Scenario) → sc.state ≡ ScenarioState.active → HasEnding es id sc → Released sc
  unfolding Released
  active-Released sc e ends =
      subst (λ st. IsLawful es id (release_quarantine st sc.deprecated_at now sc)) (sym e)
        (active-IsLawful es id sc e ends)

  aged-IsLawful :
      (sc : Scenario) (st : ScenarioState) (own : List Execution)
      → sc.state ≡ st
      → is_ageing st ≡ true
      → IsSettled es id
      → ((end : ℕ) → some (known_terminal sc.terminal_at own) ≡ some end → IsLatestEnd es id end)
      → IsLawful es id sc
      → IsLawful es id (aged (known_terminal sc.terminal_at own) now sc)
  unfolding Released
  aged-IsLawful sc ScenarioState.active own e ageing settled ends h =
      let end = known_terminal sc.terminal_at own in
      let sc1 : Scenario = record sc { terminal_at = some end } in
      subst (λ st. Released (deprecate st end now sc1)) (sym e)
        (if_holds Released (leb (end + sc.retention_days * day) now) _ sc1
          (λ over. ripened-IsLawful _ now refl settled (refl, (end, refl, leb→le _ _ over)) ends)
          (λ _. active-Released sc1 e ends))
  aged-IsLawful sc ScenarioState.deprecated own e ageing settled ends h =
      let end = known_terminal sc.terminal_at own in
      let sc1 : Scenario = record sc { terminal_at = some end } in
      let (at, due) = h.due (ap is_active e) in
      subst (λ st. Released (deprecate st end now sc1)) (sym e)
        (ripened-IsLawful sc1 at e settled (terminal-IsDue sc at own due) ends)
  aged-IsLawful sc ScenarioState.purge_eligible own e ageing settled ends h = cc
  aged-IsLawful sc ScenarioState.purged own e ageing settled ends h = cc

  known_terminal-IsLatestEnd :
      (sc : Scenario) (o : Option ℕ)
      → sc.terminal_at ≡ o
      → IsLatestEnd es id (latest (select (belongs id) es))
      → HasEnding es id sc
      → (end : ℕ) → some (known_terminal o (select (belongs id) es)) ≡ some end
      → IsLatestEnd es id end
  known_terminal-IsLatestEnd sc none at last ends end e =
      subst (IsLatestEnd es id) (some-injective _ end e) last
  known_terminal-IsLatestEnd sc (some known) at last ends end e = ends end (at ∙ e)

  housekept-IsLawful :
      (sc : Scenario)
      → every (is_dated now) es ≡ true
      → IsLawful es id sc
      → IsLawful es id (housekept (select (belongs id) es) now sc)
  housekept-IsLawful sc ended h =
      let own = select (belongs id) es in
      if_holds (IsLawful es id) (is_ageing sc.state && not (is_empty own || any is_live own)) _ sc
        (λ due.
          let left = &&-left (is_ageing sc.state) (not (is_empty own || any is_live own)) due in
          let quiet : any is_live own ≡ false =
            quiet_of (is_empty own) (any is_live own) (&&-right (is_ageing sc.state) _ due) in
          let last =
            latest-IsLatestEnd now es id ended quiet
              (some_of (is_empty own) (any is_live own) (&&-right (is_ageing sc.state) _ due)) in
          aged-IsLawful sc sc.state own refl left (select-IsSettled id es quiet)
            (known_terminal-IsLatestEnd sc sc.terminal_at refl last h.ending) h)
        (λ _. h)

  housekept_row-IsLawful :
      (row : Option Scenario) (sc : Scenario)
      → ((x : Scenario) → row ≡ some x → IsLawful es id x)
      → every (is_dated now) es ≡ true
      → housekept_row row (select (belongs id) es) now ≡ some sc
      → IsLawful es id sc
  housekept_row-IsLawful none sc h ended e = cc
  housekept_row-IsLawful (some x) sc h ended e =
      subst (IsLawful es id) (same_row refl e) (housekept-IsLawful x ended (h x refl))

pub apply_housekeeping-AreLawful :
    (now : ℕ) (s : Store)
    → every (is_dated now) s.executions ≡ true
    → AreLawful s
    → AreLawful (apply_housekeeping now s)
unfolding apply_housekeeping
apply_housekeeping-AreLawful now s ended h id sc e =
    housekept_row-IsLawful s.executions id now (s.scenarios id) sc (h id) ended e
