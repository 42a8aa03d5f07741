-- ===== src/Simulator/Scenarios/Ends.antt =====
-- The ends of executions, which a scenario's terminal instant is taken from, and how requests keep them.
use mathlib.Core.Option.{some-injective}
use copy_s3_to_oci.Base.{
  ℕ, ◌≤◌, ◌≡◌, inl, inr, refl, sym, ◌∙◌, subst, Bool, true, false, not, ◌&&◌, ◌||◌, Option, none,
  some, List, [], ◌∷◌, ◌++◌, leb, any, every, select, find_by, holds, is_some, if◌then◌else◌, arith,
  Bool-cases,
}
use copy_s3_to_oci.Simulator.Scenarios.{
  ExecutionState, Execution, is_terminal, same_state, update_first, or_now, started_execution,
  entered, has_id, belongs, ended_at, latest, is_live, is_empty,
}

-- The execution belongs to the scenario and ended at this instant.
abbrev pub ends_at : ℕ → ℕ → Execution → Bool
ends_at id end e = belongs id e && (is_terminal e.state && holds e.real_finished_at end)

abbrev pub is_by : ℕ → Option ℕ → Bool
is_by end none = false
is_by end (some at) = leb at end

-- It ended by this instant, or was not created before it.
abbrev pub is_outside : ℕ → Execution → Bool
is_outside end e = is_terminal e.state && is_by end e.real_finished_at || leb end e.created_at

abbrev pub ends_by : ℕ → ℕ → Execution → Bool
ends_by id end e = not (belongs id e) || is_outside end e

-- An execution of the scenario ended at `end`, and none that was created before `end` has ended later
-- or may still run.
pub record IsLatestEnd (es : List Execution) (id end : ℕ) : Type 0 where
  pub some_ended : any (ends_at id end) es ≡ true
  pub all_ended : every (ends_by id end) es ≡ true

abbrev is_upto : ℕ → Option ℕ → Bool
is_upto clock none = true
is_upto clock (some at) = leb at clock

-- The instants of an execution are not after the clock, and if it has ended, it has that of its end.
abbrev pub is_dated : ℕ → Execution → Bool
is_dated clock e =
    (not (is_terminal e.state) || is_some e.real_finished_at)
    && (leb e.created_at clock && is_upto clock e.real_finished_at)

is_upto-later :
    (clock now : ℕ) (o : Option ℕ) → clock ≤ now → is_upto clock o ≡ true → is_upto now o ≡ true
is_upto-later clock now none le h = refl
is_upto-later clock now (some at) le h = ground arith

is_dated-later :
    (clock now : ℕ) (e : Execution) → clock ≤ now → is_dated clock e ≡ true → is_dated now e ≡ true
is_dated-later clock now e le h =
    let upto = is_upto-later clock now e.real_finished_at le (ground arith) in ground (arith, upto)

pub later-are_dated :
    (clock now : ℕ) (es : List Execution)
    → clock ≤ now
    → every (is_dated clock) es ≡ true
    → every (is_dated now) es ≡ true
later-are_dated clock now [] le h = refl
later-are_dated clock now (e ∷ es) le h =
    rw
      (is_dated-later clock now e le (ground arith), later-are_dated clock now es le (ground arith))
      refl

pub started-are_dated :
    (id scenario now : ℕ) (es : List Execution)
    → every (is_dated now) es ≡ true
    → every (is_dated now) (es ++ started_execution id scenario now ∷ []) ≡ true
started-are_dated id scenario now [] h = ground arith
started-are_dated id scenario now (e ∷ es) h = ground (arith, started-are_dated id scenario now es)

end-upto :
    (clock end : ℕ) (o : Option ℕ) → holds o end ≡ true → is_upto clock o ≡ true → end ≤ clock
end-upto clock end none h k = cc
end-upto clock end (some at) h k = ground arith

-- An end is not after the clock.
end-le :
    (clock id end : ℕ) (es : List Execution)
    → every (is_dated clock) es ≡ true
    → any (ends_at id end) es ≡ true
    → end ≤ clock
end-le clock id end [] h k = cc
end-le clock id end (e ∷ es) h k = elim (Bool-cases (ends_at id end e)) [
  | inl here ↦ end-upto clock end e.real_finished_at (ground arith) (ground arith)
  | inr other ↦ end-le clock id end es (ground arith) (ground arith)
]

append-some_ended :
    (es fs : List Execution) (id end : ℕ)
    → any (ends_at id end) es ≡ true
    → any (ends_at id end) (es ++ fs) ≡ true
append-some_ended [] fs id end h = cc
append-some_ended (e ∷ es) fs id end h = ground (arith, append-some_ended es fs id end)

append-all_ended :
    (es : List Execution) (id end new scenario now : ℕ)
    → end ≤ now
    → every (ends_by id end) es ≡ true
    → every (ends_by id end) (es ++ started_execution new scenario now ∷ []) ≡ true
append-all_ended [] id end new scenario now le h = ground arith
append-all_ended (e ∷ es) id end new scenario now le h =
    ground (arith, append-all_ended es id end new scenario now le)

-- A new execution is created no sooner than a known end.
pub append-IsLatestEnd :
    (es : List Execution) (id end clock new scenario now : ℕ)
    → clock ≤ now
    → every (is_dated clock) es ≡ true
    → IsLatestEnd es id end
    → IsLatestEnd (es ++ started_execution new scenario now ∷ []) id end
append-IsLatestEnd es id end clock new scenario now le dated h =
    let before = end-le clock id end es dated h.some_ended in
    record {
      some_ended = append-some_ended es _ id end h.some_ended;
      all_ended = append-all_ended es id end new scenario now (omega arith) h.all_ended;
    }

pub same_state-keeps :
    (a b : ExecutionState)
    → is_terminal a ≡ true
    → (is_terminal a && not (same_state a b)) ≡ false
    → is_terminal b ≡ true
same_state-keeps ExecutionState.created b h g = cc
same_state-keeps ExecutionState.running b h g = cc
same_state-keeps ExecutionState.succeeded ExecutionState.created h g = cc
same_state-keeps ExecutionState.succeeded ExecutionState.running h g = cc
same_state-keeps ExecutionState.succeeded ExecutionState.succeeded h g = refl
same_state-keeps ExecutionState.succeeded ExecutionState.failed h g = refl
same_state-keeps ExecutionState.succeeded ExecutionState.cancelled h g = refl
same_state-keeps ExecutionState.failed ExecutionState.created h g = cc
same_state-keeps ExecutionState.failed ExecutionState.running h g = cc
same_state-keeps ExecutionState.failed ExecutionState.succeeded h g = refl
same_state-keeps ExecutionState.failed ExecutionState.failed h g = refl
same_state-keeps ExecutionState.failed ExecutionState.cancelled h g = refl
same_state-keeps ExecutionState.cancelled ExecutionState.created h g = cc
same_state-keeps ExecutionState.cancelled ExecutionState.running h g = cc
same_state-keeps ExecutionState.cancelled ExecutionState.succeeded h g = refl
same_state-keeps ExecutionState.cancelled ExecutionState.failed h g = refl
same_state-keeps ExecutionState.cancelled ExecutionState.cancelled h g = refl

holds-or_now : (now end : ℕ) (o : Option ℕ) → holds o end ≡ true → holds (or_now o now) end ≡ true
holds-or_now now end none h = cc
holds-or_now now end (some at) h = h

is_by-or_now : (now end : ℕ) (o : Option ℕ) → is_by end o ≡ true → is_by end (or_now o now) ≡ true
is_by-or_now now end none h = cc
is_by-or_now now end (some at) h = h

is_some-or_now : (now : ℕ) (o : Option ℕ) → is_some (or_now o now) ≡ true
is_some-or_now now none = refl
is_some-or_now now (some at) = refl

is_upto-or_now : (now : ℕ) (o : Option ℕ) → is_upto now o ≡ true → is_upto now (or_now o now) ≡ true
is_upto-or_now now none h = ground arith
is_upto-or_now now (some at) h = h

-- What an execution may enter.
module _ (state : ExecutionState) (now : ℕ) (e : Execution)
    (allowed : (is_terminal e.state && not (same_state e.state state)) ≡ false) where
  entered-ends_at :
      (id end : ℕ) → ends_at id end e ≡ true → ends_at id end (entered state now e) ≡ true
  entered-ends_at id end h =
      let own : belongs id e ≡ true = ground arith in
      let over : is_terminal e.state ≡ true = ground arith in
      let still = same_state-keeps e.state state over allowed in
      rw (own, still, if◌then◌else◌) (holds-or_now now end e.real_finished_at (ground arith))

  entered-ends_by :
      (id end : ℕ) → ends_by id end e ≡ true → ends_by id end (entered state now e) ≡ true
  entered-ends_by id end h = elim (Bool-cases (belongs id e)) [
    | inr other ↦ rw other refl
    | inl own ↦ elim (Bool-cases (leb end e.created_at)) [
      | inl late ↦ rw (own, late) (ground arith)
      | inr early ↦
          let over : is_terminal e.state ≡ true = ground arith in
          let still = same_state-keeps e.state state over allowed in
          let by = is_by-or_now now end e.real_finished_at (ground arith) in
          rw (own, still, if◌then◌else◌) (ground (arith, by))
    ]
  ]

  entered-is_dated : is_dated now e ≡ true → is_dated now (entered state now e) ≡ true
  entered-is_dated h = elim (Bool-cases (is_terminal state)) [
    | inr open_ ↦ rw (open_, if◌then◌else◌) (ground arith)
    | inl over ↦
        let upto = is_upto-or_now now e.real_finished_at (ground arith) in
        rw (over, if◌then◌else◌) (rw (is_some-or_now now e.real_finished_at, upto) (ground arith))
  ]

-- The row that is found is changed, so what its change keeps, the rows keep.
module _ (p : Execution → Bool) (f : Execution → Execution) (q : Execution → Bool) where
  update_first-any :
      (es : List Execution)
      → ((e : Execution) → find_by p es ≡ some e → q e ≡ true → q (f e) ≡ true)
      → any q es ≡ true
      → any q (update_first p f es) ≡ true
  update_first-any [] k h = cc
  update_first-any (e ∷ es) k h = elim (Bool-cases (p e)) [
    | inl is ↦ elim (Bool-cases (q e)) [
      | inl here ↦ rw (is, if◌then◌else◌) (rw (k e (rw (is, if◌then◌else◌) refl) here) refl)
      | inr no_ ↦ rw (is, if◌then◌else◌) (ground arith)
    ]
    | inr other ↦
        let rest = update_first-any es (λ x g. k x (rw (other, if◌then◌else◌) g)) in
        rw (other, if◌then◌else◌) (ground (arith, rest))
  ]

  update_first-every :
      (es : List Execution)
      → ((e : Execution) → find_by p es ≡ some e → q e ≡ true → q (f e) ≡ true)
      → every q es ≡ true
      → every q (update_first p f es) ≡ true
  update_first-every [] k h = refl
  update_first-every (e ∷ es) k h = elim (Bool-cases (p e)) [
    | inl is ↦
        rw (is, if◌then◌else◌)
          (rw (k e (rw (is, if◌then◌else◌) refl) (ground arith)) (ground arith))
    | inr other ↦
        let rest = update_first-every es (λ x g. k x (rw (other, if◌then◌else◌) g)) in
        rw (other, if◌then◌else◌) (ground (arith, rest))
  ]

module _ (key now : ℕ) (state : ExecutionState) (es : List Execution) (x : Execution)
    (found : find_by (has_id key) es ≡ some x)
    (allowed : (is_terminal x.state && not (same_state x.state state)) ≡ false) where
  allowed_row :
      (e : Execution)
      → find_by (has_id key) es ≡ some e
      → (is_terminal e.state && not (same_state e.state state)) ≡ false
  allowed_row e g =
      let same : x ≡ e = some-injective x e (sym found ∙ g) in
      subst (λ y. (is_terminal y.state && not (same_state y.state state)) ≡ false) same allowed

  -- A state that an execution may enter leaves the known ends.
  pub entered-IsLatestEnd :
      (id end : ℕ)
      → IsLatestEnd es id end
      → IsLatestEnd (update_first (has_id key) (entered state now) es) id end
  entered-IsLatestEnd id end h = record {
    some_ended =
        update_first-any (has_id key) (entered state now) (ends_at id end) es
          (λ e g k. entered-ends_at state now e (allowed_row e g) id end k) h.some_ended;
    all_ended =
        update_first-every (has_id key) (entered state now) (ends_by id end) es
          (λ e g k. entered-ends_by state now e (allowed_row e g) id end k) h.all_ended;
  }

  pub entered-are_dated :
      every (is_dated now) es ≡ true
      → every (is_dated now) (update_first (has_id key) (entered state now) es) ≡ true
  entered-are_dated h =
      update_first-every (has_id key) (entered state now) (is_dated now) es
        (λ e g k. entered-is_dated state now e (allowed_row e g) k) h

finished :
    (end : ℕ) (o : Option ℕ) (created : ℕ)
    → is_some o ≡ true
    → (elim o [ none ↦ created | some at ↦ at ]) ≤ end
    → is_by end o ≡ true
finished end none created h le = cc
finished end (some at) created h le = ground (arith, le)

finished_at :
    (o : Option ℕ) (created : ℕ)
    → is_some o ≡ true
    → holds o (elim o [ none ↦ created | some at ↦ at ]) ≡ true
finished_at none created h = cc
finished_at (some at) created h = ground arith

-- Where none is live, the executions of the scenario ended by the latest of their ends.
bounded :
    (clock id end : ℕ) (es : List Execution)
    → every (is_dated clock) es ≡ true
    → any is_live (select (belongs id) es) ≡ false
    → latest (select (belongs id) es) ≤ end
    → every (ends_by id end) es ≡ true
bounded clock id end [] h quiet le = refl
bounded clock id end (e ∷ es) h quiet le = elim (Bool-cases (belongs id e)) [
  | inr other ↦ rw other (
      bounded clock id end es (ground arith) (rw (other, if◌then◌else◌) at quiet)
        (rw (other, if◌then◌else◌) at le))
  | inl own ↦
      let quiet' = rw (own, if◌then◌else◌) at quiet in
      let le' = rw (own, if◌then◌else◌) at le in
      let over : is_terminal e.state ≡ true = ground arith in
      let here = finished end e.real_finished_at e.created_at (ground arith) (omega arith) in
      let rest = bounded clock id end es (ground arith) (ground arith) (omega arith) in
      rw (own, over, here) rest
]

empty-latest : (es : List Execution) → is_empty es ≡ true → latest es ≡ 0
empty-latest [] h = refl
empty-latest (e ∷ es) h = cc

-- One of them ended then.
attained :
    (clock id end : ℕ) (es : List Execution)
    → every (is_dated clock) es ≡ true
    → any is_live (select (belongs id) es) ≡ false
    → is_empty (select (belongs id) es) ≡ false
    → latest (select (belongs id) es) ≡ end
    → any (ends_at id end) es ≡ true
attained clock id end [] h quiet some_ e = cc
attained clock id end (x ∷ xs) h quiet some_ e = elim (Bool-cases (belongs id x)) [
  | inr other ↦ rw other (
      attained clock id end xs (ground arith) (rw (other, if◌then◌else◌) at quiet)
        (rw (other, if◌then◌else◌) at some_) (rw (other, if◌then◌else◌) at e))
  | inl own ↦
      let own_rows = select (belongs id) xs in
      let quiet' = rw (own, if◌then◌else◌) at quiet in
      let e' = rw (own, if◌then◌else◌) at e in
      let over : is_terminal x.state ≡ true = ground arith in
      elim (Bool-cases (leb (latest own_rows) (ended_at x))) [
        | inl last ↦
            let at : ended_at x ≡ end = ground arith in
            let here =
              subst (λ n. holds x.real_finished_at n ≡ true) at
                (finished_at x.real_finished_at x.created_at (ground arith)) in
            rw (own, over, here) refl
        | inr earlier ↦ elim (Bool-cases (is_empty own_rows)) [
          | inl none_ ↦ absurd (ground (arith, empty-latest own_rows none_))
          | inr more ↦
              ground
                (arith, attained clock id end xs (ground arith) (ground arith) more (ground arith))
        ]
      ]
]

-- What a housekeeping takes for the end of a settled scenario is the last end of its executions.
pub latest-IsLatestEnd :
    (clock : ℕ) (es : List Execution) (id : ℕ)
    → every (is_dated clock) es ≡ true
    → any is_live (select (belongs id) es) ≡ false
    → is_empty (select (belongs id) es) ≡ false
    → IsLatestEnd es id (latest (select (belongs id) es))
latest-IsLatestEnd clock es id h quiet some_ =
    let end = latest (select (belongs id) es) in
    record {
      some_ended = attained clock id end es h quiet some_ refl;
      all_ended = bounded clock id end es h quiet (omega arith);
    }
