-- ===== src/Planner/Pipeline.antt =====
-- `discovered_object_filters` and `refresh_dynamic_pipeline_run` of app/main.py. The filter by prefix
-- is `startswith` of a column, which the database answers: the parameter `matches`, on the prefix and
-- the key.
pub mod Status
use copy_s3_to_oci.Base.{
  ℕ, Bool, true, false, ◌&&◌, ◌||◌, not, Option, none, some, List, [], ◌∷◌, ◌++◌, ◌==◌, holds, any,
  every, max, select, update_where, map, if◌then◌else◌,
}
use copy_s3_to_oci.Schema.{
  ObjectRecord, Wave, WaveStatus, PipelineRun, RunStatus, Db, is_discovered, has_succeeded,
  has_failed, is_in_progress, is_closed, is_completed_run,
}
use copy_s3_to_oci.Scope.{Text, strip, is_empty}

-- `if prefix.strip(): ... startswith(prefix.strip())`.
unfoldable pub in_selection : (Text → Text → Bool) → Text → Text → Bool
in_selection matches prefix key = is_empty (strip prefix) || matches (strip prefix) key

unfoldable pub discovered : (Text → Text → Bool) → ℕ → Text → ObjectRecord → Bool
unfolding in_selection
discovered matches source prefix o =
    (o.source_id == source && o.is_current_revision)
    && is_discovered o.state
    && in_selection matches prefix o.object_key

abbrev pub wave_of_run : ℕ → Wave → Bool
wave_of_run run w = holds w.pipeline_run_id run

-- `statuses and all(...)`.
unfoldable pub all_succeeded : List WaveStatus → Bool
all_succeeded [] = false
all_succeeded (s ∷ ss) = every has_succeeded (s ∷ ss)

abbrev pub later : Option ℕ → Option ℕ → Option ℕ
later none b = b
later (some a) none = some a
later (some a) (some b) = some (max a b)

-- `max(ObjectRecord.transferred_at)` of the run's waves.
abbrev pub newest_transfer : Db → ℕ → List ObjectRecord → Option ℕ
newest_transfer db run [] = none
newest_transfer db run (o ∷ os) =
    let rest = newest_transfer db run os in
    if any (λ w. wave_of_run run w && holds o.wave_id w.id) db.waves
    then later o.transferred_at rest
    else rest

abbrev pub or_now : Option ℕ → ℕ → ℕ
or_now none now = now
or_now (some at) now = at

abbrev pub remains : (Text → Text → Bool) → Db → PipelineRun → Bool
unfolding discovered
remains matches db r = any (discovered matches r.source_id r.selection_prefix) db.objects

-- The branches, on what the run's waves and the inventory say.
unfoldable pub judged : (Text → Text → Bool) → Db → ℕ → PipelineRun → List WaveStatus → PipelineRun
unfolding all_succeeded remains
judged matches db now r statuses =
    if all_succeeded statuses
    then (if remains matches db r
        then record r { status = RunStatus.scheduled; completed_at = none }
        else if is_completed_run r.status
        then r
        else record r {
          status = RunStatus.completed;
          completed_at = some (or_now (newest_transfer db r.id db.objects) now);
        })
    else if any has_failed statuses
    then (if is_completed_run r.status then r else record r { status = RunStatus.needs_attention })
    else if any is_in_progress statuses
    then (if is_closed r.status then r else record r { status = RunStatus.in_progress })
    else if is_closed r.status
    then r
    else record r {
      status = if r.scheduled_restores then RunStatus.scheduled else RunStatus.planned;
    }

unfoldable pub refresh_dynamic_pipeline_run : (Text → Text → Bool) → ℕ → PipelineRun → Db → Db
unfolding judged
refresh_dynamic_pipeline_run matches now r db = record db {
  runs =
      update_where (λ q. q.id == r.id)
        (λ q. judged matches db now q (map (λ w. w.status) (select (wave_of_run q.id) db.waves)))
        db.runs;
}
