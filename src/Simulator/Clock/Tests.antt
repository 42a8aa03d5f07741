-- ===== src/Simulator/Clock/Tests.antt =====
-- A clock that is held and paused at once, moved, and let go again.
use copy_s3_to_oci.Base.{arith, ℕ, ◌≡◌, refl, none, List, [], ◌∷◌, false}
use copy_s3_to_oci.Simulator.Clock.{Clock, virtual_now}
use copy_s3_to_oci.Simulator.Clock.{Action}
use copy_s3_to_oci.Simulator.Clock.Action.{pause, resume, hold, release, advance, advance_back}
use copy_s3_to_oci.Simulator.Clock.Ticker.{IsConsistent, controls, presses, seen, controls-ticks}

abbrev started : Clock
started = record {
  acceleration = 3600;
  paused = false;
  paused_virtual_at = none;
  hold_count = 0;
  held_virtual_at = none;
  virtual_anchor_at = 1000;
  real_anchor_at = 50;
}

started-IsConsistent : IsConsistent 60 started
started-IsConsistent = record {
  anchor = omega arith;
  pauses = λ bad. cc;
  holds = λ bad. absurd (omega arith);
}

abbrev requests : List (ℕ × Action)
requests =
    (5, hold)
    ∷ (3, pause)
    ∷ (2, advance 500)
    ∷ (1, advance_back 9)
    ∷ (4, resume)
    ∷ (6, release)
    ∷ (7, hold)
    ∷ []

controls-ticks_example :
    let (later, c) = controls requests (60, started) in
    seen later c ≡ presses requests (seen 60 started)
controls-ticks_example = controls-ticks requests 60 started started-IsConsistent

seen_after : (presses requests (seen 60 started)).at ≡ 80700
unfolding virtual_now
seen_after = refl
