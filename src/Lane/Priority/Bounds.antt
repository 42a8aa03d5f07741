-- ===== src/Lane/Priority/Bounds.antt =====
-- The range of the score of `transfer_priority`, its critical band and its course in time.
use copy_s3_to_oci.Base.{ℕ, ◌+◌, ◌*◌, ◌≤◌, ◌<◌, ◌≡◌, ◌↔◌, none, some, arith}
use copy_s3_to_oci.Schema.{Band}
use copy_s3_to_oci.Lane.Priority.{Bonus, left, needed, transfer_priority}

-- The slack of a copy that must end by the deadline is at most `seconds`.
abbrev pub SlackWithin : ℕ → ℕ → ℕ → ℕ → ℕ → Type 0
SlackWithin seconds deadline predicted reserve now =
    left deadline now ≤ needed predicted reserve + 5000 * seconds

-- With a deadline, the score reaches 90, and the band is CRITICAL, exactly if at most 30
-- minutes of slack are left after the copy, its retry budget and the reserve; the bonuses never
-- make it so; the score is at most 100.
pub transfer_priority-critical :
    (deadline predicted reserve now : ℕ) (b : Bonus)
    → let p = transfer_priority (some deadline) predicted reserve now b in
      ((90 ≤ p.score) ↔ SlackWithin 1800 deadline predicted reserve now)
      × ((p.band ≡ Band.critical) ↔ SlackWithin 1800 deadline predicted reserve now)
      × (p.score ≤ 100)
unfolding transfer_priority
transfer_priority-critical deadline predicted reserve now b =
    (ground arith, ground arith, ground arith)

-- A copy that must end within six hours of slack scores above any object without an expiry,
-- whatever the bonuses of either.
pub transfer_priority-no_expiry :
    (deadline predicted reserve now : ℕ) (p' r' n' : ℕ) (b c : Bonus)
    → SlackWithin 21600 deadline predicted reserve now
    → (transfer_priority none p' r' n' c).score
      < (transfer_priority (some deadline) predicted reserve now b).score
unfolding transfer_priority
transfer_priority-no_expiry deadline predicted reserve now p' r' n' b c h = ground arith

-- As time passes, with the bonuses unchanged, the score of a copy with a deadline never falls.
pub transfer_priority_mono :
    (deadline predicted reserve now later : ℕ) (b : Bonus)
    → now ≤ later
    → (transfer_priority (some deadline) predicted reserve now b).score
      ≤ (transfer_priority (some deadline) predicted reserve later b).score
unfolding transfer_priority
transfer_priority_mono deadline predicted reserve now later b h = ground arith
