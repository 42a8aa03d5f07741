-- ===== src/Simulator/Clock/Ticker.antt =====
-- An abstract clock for `control_clock` of app/simulator_store.py: one instant, paused, held or running.
use native.Mathlib.Nat.{add-mul, mul-le-mul_right}
use copy_s3_to_oci.Base.{
  ℕ, zero, suc, ◌+◌, ◌-◌, ◌*◌, ◌≤◌, ◌<◌, ◌≡◌, refl, sym, ap, subst, ◌∙◌, Bool, true, false, ◌||◌,
  Option, none, some, List, [], ◌∷◌, ltb, arith, inl, inr, if◌then◌else◌, Bool-cases, map, All,
}
use copy_s3_to_oci.Simulator.Clock.{
  Clock, Action, is_held, virtual_now, resumed, held_once_more, let_go, or_current, released_from,
  moved, control_clock, recovered, pause_running_clocks_after_startup,
}
use copy_s3_to_oci.Simulator.Clock.Action.{
  pause, resume, hold, release, advance, advance_back, unknown,
}

pub record Ticker : Type 0 where
  pub at : ℕ
  pub paused : Bool
  pub holds : ℕ
  pub acceleration : ℕ

-- Real time passes.
abbrev pub tick : ℕ → Ticker → Ticker
tick elapsed k = record k {
  at = if k.paused || ltb 0 k.holds then k.at else k.at + elapsed * k.acceleration;
}

abbrev pub press : Action → Ticker → Ticker
press pause k = record k { paused = true }
press resume k = record k { paused = false }
press hold k = record k { holds = suc k.holds }
press release k = record k { holds = k.holds - 1 }
press (advance by) k = record k { at = k.at + by }
press (advance_back by) k = k
press unknown k = k

abbrev pub seen : ℕ → Clock → Ticker
seen now c = record {
  at = virtual_now c now;
  paused = c.paused;
  holds = c.hold_count;
  acceleration = c.acceleration;
}

abbrev or_keep : Clock → Option Clock → Clock
or_keep c none = c
or_keep c (some c') = c'

-- Requests, each some microseconds after the one before; a refused one changes nothing.
unfoldable pub controls : List (ℕ × Action) → ℕ × Clock → ℕ × Clock
unfolding control_clock
controls [] (now, c) = (now, c)
controls ((elapsed, action) ∷ rest) (now, c) =
    controls rest (now + elapsed, or_keep c (control_clock action (now + elapsed) c))

abbrev pub presses : List (ℕ × Action) → Ticker → Ticker
presses [] k = k
presses ((elapsed, action) ∷ rest) k = presses rest (press action (tick elapsed k))

-- What is stored by a clock since an instant that is not later than its last reading.
pub record IsConsistent (now : ℕ) (c : Clock) : Type 0 where
  pub anchor : c.real_anchor_at ≤ now
  pub pauses : c.paused ≡ true → c.paused_virtual_at ≡ some (virtual_now c now)
  pub holds : 0 < c.hold_count → c.held_virtual_at ≡ some (virtual_now c now)

paused_now :
    (now : ℕ) (c : Clock) {at : ℕ}
    → c.paused ≡ true
    → c.paused_virtual_at ≡ some at
    → virtual_now c now ≡ at
unfolding virtual_now
paused_now now c e f = rw (e, f) refl

held_now :
    (now : ℕ) (c : Clock) {at : ℕ}
    → c.paused ≡ false
    → 0 < c.hold_count
    → c.held_virtual_at ≡ some at
    → virtual_now c now ≡ at
unfolding virtual_now
held_now now c e h f = let held : is_held c ≡ true = ground arith in rw (e, held, f) refl

running_now :
    (now : ℕ) (c : Clock)
    → c.paused ≡ false
    → c.hold_count ≡ 0
    → virtual_now c now
      ≡ c.virtual_anchor_at + now * c.acceleration - c.real_anchor_at * c.acceleration
unfolding virtual_now
running_now now c e h = rw (e, h) refl

-- A clock is paused, held or running.
data Mode (c : Clock) : Type 0 where
  stopped : c.paused ≡ true → Mode c
  kept : c.paused ≡ false → 0 < c.hold_count → Mode c
  runs : c.paused ≡ false → c.hold_count ≡ 0 → Mode c

mode : (c : Clock) → Mode c
mode c = elim (Bool-cases c.paused) [
  | inl e ↦ stopped e
  | inr e ↦ elim (Bool-cases (ltb 0 c.hold_count)) [
    | inl held ↦ kept e (ground arith)
    | inr free ↦ runs e (ground arith)
  ]
]

if_true : {b : Bool} (x y : ℕ) → b ≡ true → (if b then x else y) ≡ x
if_true x y e = rw (e, if◌then◌else◌) refl

if_false : {b : Bool} (x y : ℕ) → b ≡ false → (if b then x else y) ≡ y
if_false x y e = rw (e, if◌then◌else◌) refl

virtual_now-passes :
    (elapsed now : ℕ) (c : Clock)
    → IsConsistent now c
    → virtual_now c (now + elapsed) ≡ (tick elapsed (seen now c)).at
virtual_now-passes elapsed now c h = elim (mode c) [
  | stopped e ↦
      paused_now (now + elapsed) c e (h.pauses e)
      ∙ sym (if_true _ _ (ap (λ b. b || ltb 0 c.hold_count) e))
  | kept e held ↦
      let is : (c.paused || ltb 0 c.hold_count) ≡ true = ground arith in
      held_now (now + elapsed) c e held (h.holds held) ∙ sym (if_true _ _ is)
  | runs e free ↦
      let off : (c.paused || ltb 0 c.hold_count) ≡ false = ground arith in
      let first = running_now now c e free in
      let after = running_now (now + elapsed) c e free in
      let grown = add-mul now elapsed c.acceleration in
      let order : c.real_anchor_at * c.acceleration ≤ now * c.acceleration =
        mul-le-mul_right c.acceleration h.anchor in
      let sum : virtual_now c (now + elapsed) ≡ virtual_now c now + elapsed * c.acceleration =
        omega arith in
      sum ∙ sym (if_false _ _ off)
]

abbrev SameKeys : Clock → Ticker → Type 0
SameKeys c k = (c.paused ≡ k.paused) × (c.hold_count ≡ k.holds) × (c.acceleration ≡ k.acceleration)

abbrev IsPressed : ℕ → Clock → Ticker → Type 0
IsPressed now c k = (seen now c ≡ k) × IsConsistent now c

pressed :
    (now : ℕ) (c : Clock) (k : Ticker)
    → SameKeys c k
    → c.real_anchor_at ≤ now
    → (c.paused ≡ true → c.paused_virtual_at ≡ some k.at)
    → (0 < c.hold_count → c.held_virtual_at ≡ some k.at)
    → (c.paused ≡ false → c.hold_count ≡ 0 → virtual_now c now ≡ k.at)
    → IsPressed now c k
pressed now c k (p, n, a) anchor pauses holds running =
    let at : virtual_now c now ≡ k.at = elim (mode c) [
      | stopped e ↦ paused_now now c e (pauses e)
      | kept e held ↦ held_now now c e held (holds held)
      | runs e free ↦ running e free
    ] in
    (
      λ i. record { at = at i; paused = p i; holds = n i; acceleration = a i },
      record {
        anchor = anchor;
        pauses = λ e. pauses e ∙ ap some (sym at);
        holds = λ held. holds held ∙ ap some (sym at);
      },
    )

anchored_now :
    (now at : ℕ) (c : Clock)
    → c.paused ≡ false
    → c.hold_count ≡ 0
    → c.virtual_anchor_at ≡ at
    → c.real_anchor_at ≡ now
    → virtual_now c now ≡ at
anchored_now now at c e free v r =
    let read = running_now now c e free in
    let same : c.real_anchor_at * c.acceleration ≡ now * c.acceleration =
      ap (λ n. n * c.acceleration) r in
    omega arith

abbrev pub freed : Ticker → Ticker
freed k = record k { holds = 0 }

module _ (now : ℕ) (c : Clock) (h : IsConsistent now c) where
  resumed-IsPressed :
      (held : Bool)
      → is_held c ≡ held
      → IsPressed now (resumed held c (virtual_now c now) now) (press resume (seen now c))
  resumed-IsPressed true e =
      pressed now _ _ (refl, refl, refl) h.anchor (λ bad. cc) (λ _. refl)
        (λ _ free. absurd (ground arith))
  resumed-IsPressed false e =
      let free : c.hold_count ≡ 0 = ground arith in
      pressed now _ _ (refl, refl, refl) (omega arith) (λ bad. cc) (λ held. absurd (omega arith))
        (λ p n. anchored_now now (virtual_now c now) _ refl free refl refl)

  held_once_more-IsPressed :
      (n : ℕ)
      → c.hold_count ≡ n
      → IsPressed now (held_once_more n c (virtual_now c now)) (press hold (seen now c))
  held_once_more-IsPressed zero e =
      pressed now _ _ (refl, ap suc (sym e), refl) h.anchor h.pauses (λ _. refl)
        (λ _ free. absurd (omega arith))
  held_once_more-IsPressed (suc n) e =
      pressed now _ _ (refl, ap suc (sym e), refl) h.anchor h.pauses (λ _. h.holds (omega arith))
        (λ _ free. absurd (omega arith))

  let_go-IsFreed :
      (p : Bool) (released : ℕ)
      → c.paused ≡ p
      → released ≡ virtual_now c now
      → IsPressed now (let_go p c released now) (freed (seen now c))
  let_go-IsFreed true released e is =
      pressed now _ _ (refl, refl, refl) h.anchor (λ _. ap some is) (λ bad. absurd (omega arith))
        (λ bad free. cc)
  let_go-IsFreed false released e is =
      pressed now _ _ (refl, refl, refl) (omega arith) (λ bad. cc) (λ bad. absurd (omega arith))
        (λ _ _. anchored_now now released _ e refl refl refl ∙ is)

  freed-release : c.hold_count ≡ 1 → freed (seen now c) ≡ press release (seen now c)
  freed-release one =
      let gone : 0 ≡ c.hold_count - 1 = omega arith in λ i. record (seen now c) { holds = gone i }

  or_current-holds :
      (held : Option ℕ)
      → held ≡ some (virtual_now c now)
      → or_current held (virtual_now c now) ≡ virtual_now c now
  or_current-holds none e = cc
  or_current-holds (some at) e = cc

  released_from-IsPressed :
      (n : ℕ)
      → c.hold_count ≡ n
      → IsPressed now (released_from n c (virtual_now c now) now) (press release (seen now c))
  released_from-IsPressed zero e =
      pressed now _ _ (refl, omega arith, refl) h.anchor h.pauses h.holds (λ _ _. refl)
  released_from-IsPressed (suc zero) e = subst (IsPressed now _) (freed-release e) (
      let_go-IsFreed c.paused (or_current c.held_virtual_at (virtual_now c now)) refl
        (or_current-holds c.held_virtual_at (h.holds (omega arith))))
  released_from-IsPressed (suc (suc n)) e =
      pressed now _ _ (refl, omega arith, refl) h.anchor h.pauses (λ _. h.holds (omega arith))
        (λ _ free. absurd (omega arith))

  moved-true : {b : Bool} (at : ℕ) (old : Option ℕ) → b ≡ true → moved b at old ≡ some at
  moved-true at old e = ap (λ b. moved b at old) e

  control_clock-IsPressed :
      (action : Action)
      → IsPressed now (or_keep c (control_clock action now c)) (press action (seen now c))
  unfolding control_clock
  control_clock-IsPressed pause =
      pressed now _ _ (refl, refl, refl) h.anchor (λ _. refl) h.holds (λ bad free. cc)
  control_clock-IsPressed resume = resumed-IsPressed (is_held c) refl
  control_clock-IsPressed hold = held_once_more-IsPressed c.hold_count refl
  control_clock-IsPressed release = released_from-IsPressed c.hold_count refl
  control_clock-IsPressed (advance by) =
      pressed now _ _ (refl, refl, refl) (omega arith) (moved-true _ _)
        (λ held. moved-true {b = is_held c} _ c.held_virtual_at (ground arith))
        (λ p n. anchored_now now (virtual_now c now + by) _ p n refl refl)
  control_clock-IsPressed (advance_back by) =
      pressed now _ _ (refl, refl, refl) h.anchor h.pauses h.holds (λ _ _. refl)
  control_clock-IsPressed unknown =
      pressed now _ _ (refl, refl, refl) h.anchor h.pauses h.holds (λ _ _. refl)

recovered_by :
    (b : Bool) (x y : Clock) (now : ℕ) (k : Ticker)
    → (b ≡ true → seen now x ≡ k)
    → (b ≡ false → seen now y ≡ k)
    → seen now (if b then x else y) ≡ k
recovered_by true x y now k h g = h refl
recovered_by false x y now k h g = g refl

seen-recovered :
    (now : ℕ) (c : Clock) → IsConsistent now c → seen now (recovered now c) ≡ freed (seen now c)
unfolding recovered
seen-recovered now c h =
    recovered_by (is_held c) _ _ now _
      (λ held. (let_go-IsFreed now c h c.paused (virtual_now c now) refl refl).0)
      (λ free.
        let none_held : c.hold_count ≡ 0 = ground arith in
        (pressed now (record c { held_virtual_at = none; hold_count = 0 }) (freed (seen now c))
          (refl, refl, refl) h.anchor h.pauses (λ bad. absurd (omega arith))
          (λ p n.
            running_now now (record c { held_virtual_at = none; hold_count = 0 }) p refl
            ∙ sym (running_now now c p none_held))).0)

ticked-IsConsistent :
    (elapsed now : ℕ) (c : Clock)
    → IsConsistent now c
    → IsPressed (now + elapsed) c (tick elapsed (seen now c))
ticked-IsConsistent elapsed now c h =
    let at = virtual_now-passes elapsed now c h in
    pressed (now + elapsed) c _ (refl, refl, refl) (omega (arith, h.anchor))
      (λ e. h.pauses e ∙ ap some (sym (if_true _ _ (ap (λ b. b || ltb 0 c.hold_count) e))))
      (λ held.
        let is : (c.paused || ltb 0 c.hold_count) ≡ true = ground arith in
        h.holds held ∙ ap some (sym (if_true _ _ is)))
      (λ _ _. at)

-- The stored clock of an execution is one instant that stands still while it is paused or held
-- and otherwise moves only with real time and by advances. From a clock that is consistent,
-- whatever requests follow (pause, resume, hold, release, advance, refused ones), each some
-- time after the one before: its reading, its pause, its number of holds and its acceleration
-- are those of the abstract ticker under the same requests; so a pause, a resume, a hold or a
-- release never moves the instant.
pub controls-ticks :
    (requests : List (ℕ × Action)) (now : ℕ) (c : Clock)
    → IsConsistent now c
    → let (later, c') = controls requests (now, c) in seen later c' ≡ presses requests (seen now c)
unfolding controls
controls-ticks [] now c h = refl
controls-ticks ((elapsed, action) ∷ rest) now c h =
    let (passed, ready) = ticked-IsConsistent elapsed now c h in
    let (done, next) = control_clock-IsPressed (now + elapsed) c ready action in
    controls-ticks rest (now + elapsed) _ next ∙ ap (presses rest) (done ∙ ap (press action) passed)

-- A restart leaves each clock at its instant, paused or not, with no hold.
pub pause_running_clocks_after_startup-frees :
    (now : ℕ) (clocks : List Clock)
    → All (IsConsistent now) clocks
    → map (seen now) (pause_running_clocks_after_startup now clocks).1
      ≡ map (λ c. freed (seen now c)) clocks
unfolding pause_running_clocks_after_startup
pause_running_clocks_after_startup-frees now [] h = refl
pause_running_clocks_after_startup-frees now (c ∷ clocks) (h, rest) =
    ap (◌∷◌ (seen now (recovered now c))) (pause_running_clocks_after_startup-frees now clocks rest)
    ∙ ap (λ k. k ∷ map (λ c. freed (seen now c)) clocks) (seen-recovered now c h)
