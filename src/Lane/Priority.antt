-- ===== src/Lane/Priority.antt =====
-- `transfer_priority` of app/main.py. Instants are seconds and the predicted copy time is in
-- milliseconds; the slack is kept in fifths of a millisecond, so that a fifth of the prediction is
-- exact. The ratio of available objects is the pair of the two counts.
pub mod Bounds
use copy_s3_to_oci.Base.{
  ℕ, ◌+◌, ◌-◌, ◌*◌, ◌/◌, min, max, Bool, ◌&&◌, Option, none, some, ltb, leb, ◌==◌, if◌then◌else◌,
}
use copy_s3_to_oci.Schema.{Band, Details}
use copy_s3_to_oci.Lane.Reason

pub record Priority : Type 0 where
  pub score : ℕ
  pub band : Band
  pub reason : ℕ
  pub details : Details

-- What only breaks ties: age, availability of the wave, order of the source, small size.
pub record Bonus : Type 0 where
  pub fairness : ℕ
  pub wave : ℕ
  pub business : ℕ
  pub small : ℕ

-- `int(source_business_priority or 999)`.
abbrev pub or_999 : ℕ → ℕ
or_999 p = if p == 0 then 999 else p

unfoldable pub bonus_of : ℕ → ℕ → ℕ → ℕ → ℕ → Bonus
bonus_of available total age business size = record {
  fairness = min 12 (age / 3600);
  wave = min 8 (min (max 1 total) available * 8 / max 1 total);
  business = min 5 (6 - or_999 business);
  small = if ltb 0 size && leb size (16 * 1024 * 1024) then 2 else 0;
}

abbrev pub sum_bonus : Bonus → ℕ
sum_bonus b = b.fairness + b.wave + b.business + b.small

-- The time left, and the time needed with the retry budget and the reserve, both times 5000.
abbrev pub left : ℕ → ℕ → ℕ
left deadline now = 5000 * (deadline - now)

abbrev pub needed : ℕ → ℕ → ℕ
needed predicted reserve = 5 * max 1000 predicted + max 300000 predicted + 5000 * reserve

-- `slack <= seconds`.
abbrev pub slack_within : ℕ → ℕ → ℕ → Bool
slack_within left_ needed_ seconds = leb left_ (needed_ + 5000 * seconds)

unfoldable pub base_score : ℕ → ℕ → ℕ
base_score l n =
    if leb l n
    then 100
    else if slack_within l n 1800
    then 95
    else if slack_within l n 7200
    then 85
    else if slack_within l n 21600
    then 70
    else 40

unfoldable pub base_reason : ℕ → ℕ → ℕ
base_reason l n =
    if leb l n
    then Reason.inside_reserve
    else if slack_within l n 1800
    then Reason.under_30_minutes
    else if slack_within l n 7200
    then Reason.under_2_hours
    else if slack_within l n 21600
    then Reason.under_6_hours
    else Reason.viable

unfoldable pub band_of : ℕ → Band
band_of score =
    if leb 90 score
    then Band.critical
    else if leb 80 score
    then Band.urgent
    else if leb 60 score
    then Band.elevated
    else Band.normal

unfoldable pub deadline_score : ℕ → ℕ → ℕ
deadline_score base bonus = if leb 90 base then base else min 89 (base + bonus)

abbrev pub details_of : ℕ → Bonus → Option (ℕ × ℕ) → ℕ → Details
details_of base b slack total = record {
  deadline = base;
  wave_availability = b.wave;
  fairness = b.fairness;
  business_priority = b.business;
  small_object = b.small;
  slack = slack;
  total = total;
}

unfoldable pub score_of : Option ℕ → ℕ → ℕ → ℕ → Bonus → ℕ
unfolding base_score deadline_score
score_of none predicted reserve now b = min 59 (10 + sum_bonus b)
score_of (some deadline) predicted reserve now b =
    deadline_score (base_score (left deadline now) (needed predicted reserve)) (sum_bonus b)

-- `reserve` is `continuous_transfer_min_buffer_seconds`.
unfoldable pub transfer_priority : Option ℕ → ℕ → ℕ → ℕ → Bonus → Priority
unfolding score_of base_reason band_of
transfer_priority none predicted reserve now b =
    let score = score_of none predicted reserve now b in
    record {
      score = score;
      band = Band.normal;
      reason = Reason.fifo;
      details = details_of 0 b none score;
    }
transfer_priority (some deadline) predicted reserve now b =
    let l = left deadline now in
    let n = needed predicted reserve in
    let score = score_of (some deadline) predicted reserve now b in
    record {
      score = score;
      band = band_of score;
      reason = base_reason l n;
      details = details_of (base_score l n) b (some ((n - l) / 5000, (l - n) / 5000)) score;
    }
