-- ===== src/Waves/Sources.antt =====
-- `source_has_executed_wave`, `delete_unexecuted_source_data`, `deactivate_archived_source_work`,
-- `reconcile_archived_source_work`, `delete_source` and `archive_source` of app/main.py.
pub mod Archive
use copy_s3_to_oci.Base.{
  ℕ, ◌+◌, Bool, true, false, ◌&&◌, ◌||◌, not, Option, none, some, List, [], ◌∷◌, ◌==◌, holds, ltb,
  leb, select, update_where, any, count, is_some, if◌then◌else◌,
}
use copy_s3_to_oci.Http.{Reply, ok, HttpError, raise_if, or_404, ◌>>=◌, ◌>>◌}
use copy_s3_to_oci.Schema.{
  Task, TaskState, Wave, WaveStatus, Source, DiscoveryJob, PipelineRun, RunStatus, ObjectRecord, Db,
  EventKind, is_active, is_discovered, is_wave_assigned, is_terminal, is_closed, get_source,
  set_wave, source_of, log,
}
use copy_s3_to_oci.Waves.Cancel.{cancel_active_wave_tasks, paused}

abbrev pub started_task : Db → ℕ → Task → Bool
started_task db source t = holds (source_of db t.wave_id) source && ltb 0 t.attempts

abbrev pub moved_object : ℕ → ObjectRecord → Bool
moved_object source o =
    (o.source_id == source) && not (is_discovered o.state || is_wave_assigned o.state)

abbrev pub submitted_wave : ℕ → Wave → Bool
submitted_wave source w = (w.source_id == source) && is_some w.batch_job_id

unfoldable pub source_has_executed_wave : Db → ℕ → Bool
source_has_executed_wave db source =
    any (started_task db source) db.tasks
    || any (moved_object source) db.objects
    || any (submitted_wave source) db.waves

-- Whether a row's wave is one of the source's.
abbrev pub owns_wave : Db → ℕ → ℕ → Bool
owns_wave db source wave = any (λ w. (w.source_id == source) && (w.id == wave)) db.waves

abbrev pub owns_attempt : Db → ℕ → ℕ → Bool
owns_attempt db source attempt =
    any (λ a. owns_wave db source a.wave_id && (a.id == attempt)) db.attempts

abbrev pub event_of : Db → ℕ → Option ℕ → Option ℕ → Bool
event_of db source owner none = holds owner source
event_of db source owner (some wave) = holds owner source || owns_wave db source wave

-- Every deletion filters by the ids that the source's waves and attempts have before the first.
unfoldable pub delete_unexecuted_source_data : ℕ → Db → Db
delete_unexecuted_source_data source db = record db {
  events = select (λ e. not (event_of db source e.source_id e.wave_id)) db.events;
  results = select (λ r. not (owns_attempt db source r.attempt_id)) db.results;
  attempts = select (λ a. not (owns_wave db source a.wave_id)) db.attempts;
  tasks = select (λ t. not (owns_wave db source t.wave_id)) db.tasks;
  items = select (λ i. not (i.source_id == source)) db.items;
  changes = select (λ c. not (c.source_id == source)) db.changes;
  objects = select (λ o. not (o.source_id == source)) db.objects;
  waves = select (λ w. not (w.source_id == source)) db.waves;
  runs = select (λ r. not (r.source_id == source)) db.runs;
  jobs = select (λ j. not (j.source_id == source)) db.jobs;
}

-- One wave of the loop of `deactivate_archived_source_work`.
abbrev pub pause_unfinished : Wave → Wave
pause_unfinished w = if is_terminal w.status then w else paused w

pub deactivate_waves : ℕ → List Wave → ℕ × Db → ℕ × Db
deactivate_waves reason [] (n, db) = (n, db)
deactivate_waves reason (w ∷ ws) (n, db) =
    let (m, db') = cancel_active_wave_tasks w.id reason db in
    deactivate_waves reason ws (n + m, set_wave w.id pause_unfinished db')

abbrev pub active_job : ℕ → DiscoveryJob → Bool
active_job source j = (j.source_id == source) && is_active j.state

abbrev pub cancelled_job : ℕ → DiscoveryJob → DiscoveryJob
cancelled_job reason j = record j {
  state = TaskState.cancelled;
  worker_id = none;
  lease_expires_at = none;
  error = some reason;
}

abbrev pub open_run : ℕ → PipelineRun → Bool
open_run source r = (r.source_id == source) && not (is_closed r.status)

abbrev pub first_of : Option ℕ → ℕ → ℕ
first_of none now = now
first_of (some at) now = at

abbrev pub historical_run : ℕ → PipelineRun → PipelineRun
historical_run now r = record r {
  status = RunStatus.historical;
  scheduled_restores = false;
  completed_at = some (first_of r.completed_at now);
}

unfoldable pub deactivate_archived_source_work : ℕ → ℕ → ℕ → Db → ℕ × Db
unfolding deactivate_waves
deactivate_archived_source_work source reason now db =
    let (n, swept) =
      deactivate_waves reason (select (λ w. w.source_id == source) db.waves) (0, db) in
    (
      n + count (active_job source) swept.jobs,
      record swept {
        jobs = update_where (active_job source) (cancelled_job reason) swept.jobs;
        runs = update_where (open_run source) (historical_run now) swept.runs;
      },
    )

pub reconcile_each : ℕ → ℕ → List Source → ℕ × Db → ℕ × Db
reconcile_each reason now [] (n, db) = (n, db)
reconcile_each reason now (s ∷ ss) (n, db) =
    let (m, db') = deactivate_archived_source_work s.id reason now db in
    reconcile_each reason now ss (n + m, db')

pub reconcile_archived_source_work : ℕ → ℕ → Db → ℕ × Db
unfolding reconcile_each
reconcile_archived_source_work reason now db =
    reconcile_each reason now (select (λ s. is_some s.archived_at) db.sources) (0, db)

-- An IntegrityError of the database rolls back and answers 409; `protected` says whether it comes.
unfoldable pub delete_source : ℕ → Bool → Db → Reply Db
delete_source key protected db = do
  source ← or_404 (get_source key db.sources)
  raise_if (source_has_executed_wave db key) HttpError.conflict
  raise_if protected HttpError.conflict
  let cleared = delete_unexecuted_source_data key db
  ok (record cleared { sources = select (λ s. not (s.id == key)) cleared.sources })

abbrev pub archived_source : ℕ → Source → Source
archived_source now s = record s { archived_at = some now }

unfoldable pub archive_source : ℕ → ℕ → ℕ → Db → Reply Db
archive_source key reason now db = do
  source ← or_404 (get_source key db.sources)
  raise_if (not (source_has_executed_wave db key)) HttpError.conflict
  let stopped = (deactivate_archived_source_work key reason now db).1
  ok (
      log EventKind.source_archived (some key) none (record stopped {
        sources = update_where (λ s. s.id == key) (archived_source now) stopped.sources;
      }))
