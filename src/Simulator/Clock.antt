-- ===== src/Simulator/Clock.antt =====
-- The clock of a simulated execution: `virtual_now` of app/simulation_engine.py, `_clock_now`, `control_clock`
-- and `pause_running_clocks_after_startup` of app/simulator_store.py. Real instants are in microseconds,
-- virtual ones in nanoseconds and the acceleration in thousandths, so that no product is rounded. A request
-- is refused before it changes anything.
pub mod Ticker
mod Tests
use copy_s3_to_oci.Base.{
  ℕ, zero, suc, ◌+◌, ◌-◌, ◌*◌, Bool, true, false, Option, none, some, List, [], ◌∷◌, ltb, map,
  if◌then◌else◌, count,
}

pub record Clock : Type 0 where
  pub acceleration : ℕ
  pub paused : Bool
  pub paused_virtual_at : Option ℕ
  pub hold_count : ℕ
  pub held_virtual_at : Option ℕ
  pub virtual_anchor_at : ℕ
  pub real_anchor_at : ℕ

abbrev pub if_set : Bool → Option ℕ → ℕ → ℕ
if_set true (some at) otherwise = at
if_set true none otherwise = otherwise
if_set false at otherwise = otherwise

abbrev pub is_held : Clock → Bool
is_held c = ltb 0 c.hold_count

unfoldable pub virtual_now : Clock → ℕ → ℕ
virtual_now c now = if_set c.paused c.paused_virtual_at (
    if_set (is_held c) c.held_virtual_at
      (c.virtual_anchor_at + now * c.acceleration - c.real_anchor_at * c.acceleration))

abbrev pub anchored : Clock → ℕ → ℕ → Clock
anchored c virtual now = record c { virtual_anchor_at = virtual; real_anchor_at = now }

pub data Action : Type 0 where
  pause : Action
  resume : Action
  hold : Action
  release : Action
  advance : ℕ → Action
  advance_back : ℕ → Action
  unknown : Action

-- The first argument is whether the clock is held.
abbrev pub resumed : Bool → Clock → ℕ → ℕ → Clock
resumed true c current now = record c {
  held_virtual_at = some current;
  paused = false;
  paused_virtual_at = none;
}
resumed false c current now = record (anchored c current now) {
  paused = false;
  paused_virtual_at = none;
}

abbrev pub held_once_more : ℕ → Clock → ℕ → Clock
held_once_more zero c current = record c { held_virtual_at = some current; hold_count = 1 }
held_once_more (suc n) c current = record c { hold_count = suc (suc n) }

-- The first argument is whether the clock is paused.
abbrev pub let_go : Bool → Clock → ℕ → ℕ → Clock
let_go true c released now = record c {
  paused_virtual_at = some released;
  held_virtual_at = none;
  hold_count = 0;
}
let_go false c released now = record (anchored c released now) {
  held_virtual_at = none;
  hold_count = 0;
}

abbrev pub or_current : Option ℕ → ℕ → ℕ
or_current none current = current
or_current (some at) current = at

-- The release of a clock with that many holds.
abbrev pub released_from : ℕ → Clock → ℕ → ℕ → Clock
released_from zero c current now = c
released_from (suc zero) c current now =
    let_go c.paused c (or_current c.held_virtual_at current) now
released_from (suc (suc n)) c current now = record c { hold_count = suc n }

abbrev pub moved : Bool → ℕ → Option ℕ → Option ℕ
moved true at old = some at
moved false at old = old

abbrev pub advanced : Clock → ℕ → ℕ → Clock
advanced c at now = record (anchored c at now) {
  paused_virtual_at = moved c.paused at c.paused_virtual_at;
  held_virtual_at = moved (is_held c) at c.held_virtual_at;
}

unfoldable pub control_clock : Action → ℕ → Clock → Option Clock
unfolding virtual_now
control_clock pause now c =
    some (record c { paused = true; paused_virtual_at = some (virtual_now c now) })
control_clock resume now c = some (resumed (is_held c) c (virtual_now c now) now)
control_clock hold now c = some (held_once_more c.hold_count c (virtual_now c now))
control_clock release now c = some (released_from c.hold_count c (virtual_now c now) now)
control_clock (advance by) now c = some (advanced c (virtual_now c now + by) now)
control_clock (advance_back by) now c = none
control_clock unknown now c = none

abbrev pub recovered : ℕ → Clock → Clock
unfolding virtual_now
recovered now c =
    if is_held c
    then let_go c.paused c (virtual_now c now) now
    else record c { held_virtual_at = none; hold_count = 0 }

unfoldable pub pause_running_clocks_after_startup : ℕ → List Clock → ℕ × List Clock
unfolding recovered
pause_running_clocks_after_startup now clocks = (count is_held clocks, map (recovered now) clocks)
