-- ===== src/Planner/Dynamic.antt =====
-- `dynamic_wave_plan` and `next_dynamic_wave_plan` of app/main.py, over the sizes of the discovered
-- objects in the order of their keys; `assign_dynamic_wave_objects` takes as many as planned.
pub mod Slices
pub mod Limits
use copy_s3_to_oci.Base.{
  ℕ, ◌+◌, ◌-◌, ◌*◌, ◌/◌, max, Bool, true, false, ◌&&◌, ◌||◌, not, Option, none, some, List, [], ◌∷◌,
  ◌++◌, ltb, leb, ◌==◌, take, if◌then◌else◌,
}
use copy_s3_to_oci.Planner.Predict.{lane_time, second}

-- What a plan depends on beside the sizes: the limits, the forecast of one object by its size, and
-- the lane (samples, rate of a worker, rate of the lane).
pub record Plan : Type 0 where
  pub max_bytes : ℕ
  pub target_seconds : ℕ
  pub max_objects : ℕ
  pub predict : ℕ → ℕ × ℕ
  pub lane_samples : ℕ
  pub worker_rate : ℕ
  pub lane_rate : ℕ

-- The wave that is being filled.
pub record Filling : Type 0 where
  pub count : ℕ
  pub bytes : ℕ
  pub predicted : ℕ
  pub samples : ℕ

pub record Slice : Type 0 where
  pub object_count : ℕ
  pub bytes : ℕ
  pub predicted_transfer_seconds : ℕ
  pub prediction_samples : ℕ
  pub exclusive : Bool

abbrev pub nothing : Filling
nothing = record { count = 0; bytes = 0; predicted = 0; samples = 0 }

-- `predicted_continuous_lane_seconds`.
abbrev pub wall : Plan → ℕ → ℕ → ℕ
unfolding lane_time
wall p bytes predicted = lane_time p.lane_samples p.worker_rate p.lane_rate bytes predicted

abbrev pub one_second : Plan → ℕ
one_second p = second p.worker_rate p.lane_rate

-- `wall > target_transfer_seconds`.
abbrev pub too_long : Plan → ℕ → ℕ → Bool
unfolding wall
too_long p bytes predicted = ltb (p.target_seconds * one_second p) (wall p bytes predicted)

-- `math.ceil(wall_seconds)`.
abbrev pub ceil_seconds : Plan → ℕ → ℕ
ceil_seconds p time = (time + one_second p - 1) / one_second p

abbrev pub with_object : Plan → Filling → ℕ → Filling
with_object p f size = record {
  count = f.count + 1;
  bytes = f.bytes + size;
  predicted = f.predicted + (p.predict size).0;
  samples = max f.samples (p.predict size).1;
}

abbrev pub single : Plan → ℕ → Filling
single p size = record {
  count = 1;
  bytes = size;
  predicted = (p.predict size).0;
  samples = (p.predict size).1;
}

abbrev pub exceeds : Plan → Filling → Bool
unfolding too_long
exceeds p g = ltb p.max_bytes g.bytes || ltb p.max_objects g.count || too_long p g.bytes g.predicted

-- An object beyond the limits by itself.
abbrev pub oversized : Plan → Filling → Bool
unfolding too_long
oversized p g = ltb p.max_bytes g.bytes || too_long p g.bytes g.predicted

abbrev pub slice : Plan → Bool → Filling → Slice
unfolding wall
slice p exclusive f = record {
  object_count = f.count;
  bytes = f.bytes;
  predicted_transfer_seconds = ceil_seconds p (wall p f.bytes f.predicted);
  prediction_samples = f.samples;
  exclusive = exclusive;
}

-- `flush()`.
abbrev pub flush : Plan → Bool → Filling → List Slice
unfolding slice
flush p exclusive f = if f.count == 0 then [] else slice p exclusive f ∷ []

-- The first object of a wave.
unfoldable pub start : Plan → ℕ → List Slice × Filling
unfolding oversized flush
start p size =
    if oversized p (single p size)
    then (flush p true (single p size), nothing)
    else ([], single p size)

-- The body of the loop over the rows: the waves that it completes, and the wave it goes on filling.
unfoldable pub pack : Plan → Filling → ℕ → List Slice × Filling
unfolding exceeds start slice
pack p f size =
    if f.count == 0
    then start p size
    else if exceeds p (with_object p f size)
    then (slice p false f ∷ (start p size).0, (start p size).1)
    else ([], with_object p f size)

pub pack_all : Plan → Filling → List ℕ → List Slice
unfolding pack flush
pack_all p f [] = flush p false f
pack_all p f (size ∷ sizes) = let (done, next) = pack p f size in done ++ pack_all p next sizes

unfoldable pub dynamic_wave_plan : Plan → List ℕ → List Slice
unfolding pack_all
dynamic_wave_plan p sizes = pack_all p nothing sizes

-- The loop of `next_dynamic_wave_plan`.
pub fill_next : Plan → Filling → List ℕ → Option Slice
unfolding exceeds oversized slice
fill_next p f [] = if f.count == 0 then none else some (slice p false f)
fill_next p f (size ∷ sizes) =
    let g = with_object p f size in
    let rest = fill_next p g sizes in
    if not (f.count == 0) && exceeds p g
    then some (slice p false f)
    else if g.count == 1 && oversized p g
    then some (slice p true g)
    else rest

unfoldable pub next_dynamic_wave_plan : Plan → List ℕ → Option Slice
unfolding fill_next
next_dynamic_wave_plan p sizes = fill_next p nothing sizes
