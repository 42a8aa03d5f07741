-- ===== src/Planner/Pipeline/Status.antt =====
-- The status that a refresh gives to a pipeline run.
use copy_s3_to_oci.Base.{
  ℕ, ◌≡◌, ◌⊎◌, refl, ap, ◌∙◌, Bool, true, false, ◌&&◌, ◌||◌, not, List, [], ◌∷◌, ◌==◌, arith, any,
  every, select, map, update_where, if◌then◌else◌, Bool-cases, inl, inr, Pairs,
}
use copy_s3_to_oci.Schema.{PipelineRun, Wave, WaveStatus, Db, has_succeeded, is_completed_run}
use copy_s3_to_oci.Scope.{Text}
use copy_s3_to_oci.Planner.Pipeline.{
  judged, all_succeeded, remains, wave_of_run, refresh_dynamic_pipeline_run,
}

-- The run has a wave, and each wave of the run succeeded.
abbrev pub is_done : ℕ → List Wave → Bool
is_done run waves =
    any (wave_of_run run) waves
    && every (λ w. not (wave_of_run run w) || has_succeeded w.status) waves

-- A row of the runs before and after a refresh of the run `id`.
abbrev pub IsRefreshed : (Text → Text → Bool) → Db → ℕ → PipelineRun → PipelineRun → Type 0
IsRefreshed matches db id q r =
    (((q.id == id) ≡ false) × (r ≡ q))
    ⊎ (((q.id == id) ≡ true)
        × (is_completed_run r.status ≡ (
            if is_done q.id db.waves
            then not (remains matches db q)
            else is_completed_run q.status)))

judged-completed :
    (matches : Text → Text → Bool) (db : Db) (now : ℕ) (r : PipelineRun)
    (statuses : List WaveStatus)
    → is_completed_run (judged matches db now r statuses).status
      ≡ (if all_succeeded statuses then not (remains matches db r) else is_completed_run r.status)
unfolding judged
judged-completed matches db now r statuses = elim (Bool-cases (all_succeeded statuses)) [
  | inl all ↦ elim (Bool-cases (remains matches db r)) [
    | inl more ↦ rw (all, more, if◌then◌else◌) refl
    | inr none_ ↦ elim (Bool-cases (is_completed_run r.status)) [
      | inl done ↦ rw (all, none_, done, if◌then◌else◌) done
      | inr fresh ↦ rw (all, none_, fresh, if◌then◌else◌) refl
    ]
  ]
  | inr some_ ↦ ground arith
]

every_selected :
    (p : Wave → Bool) (ws : List Wave)
    → every has_succeeded (map (λ w. w.status) (select p ws))
      ≡ every (λ w. not (p w) || has_succeeded w.status) ws
every_selected p [] = refl
every_selected p (w ∷ ws) = ground (arith, every_selected p ws)

all_succeeded-select :
    (p : Wave → Bool) (ws : List Wave)
    → all_succeeded (map (λ w. w.status) (select p ws))
      ≡ (any p ws && every (λ w. not (p w) || has_succeeded w.status) ws)
unfolding all_succeeded
all_succeeded-select p [] = refl
all_succeeded-select p (w ∷ ws) = elim (Bool-cases (p w)) [
  | inl e ↦ rw (e, if◌then◌else◌) (ap (◌&&◌ (has_succeeded w.status)) (every_selected p ws))
  | inr e ↦ rw (e, if◌then◌else◌) (all_succeeded-select p ws)
]

module _ (matches : Text → Text → Bool) (now id : ℕ) (db : Db) where
  refreshed : PipelineRun → PipelineRun
  refreshed q = judged matches db now q (map (λ w. w.status) (select (wave_of_run q.id) db.waves))

  refreshed-completed :
      (q : PipelineRun)
      → is_completed_run (refreshed q).status
        ≡ (if is_done q.id db.waves then not (remains matches db q) else is_completed_run q.status)
  unfolding refreshed
  refreshed-completed q =
      judged-completed matches db now q _
      ∙ ap (λ (b : Bool). if b then not (remains matches db q) else is_completed_run q.status)
          (all_succeeded-select (wave_of_run q.id) db.waves)

  refreshed-rows :
      (rows : List PipelineRun)
      → Pairs (IsRefreshed matches db id) rows (update_where (λ q. q.id == id) refreshed rows)
  refreshed-rows [] = tt
  refreshed-rows (q ∷ qs) = elim (Bool-cases (q.id == id)) [
    | inl e ↦ rw (e, update_where) (inr (refl, refreshed-completed q), refreshed-rows qs)
    | inr e ↦ rw (e, update_where) (inl (refl, refl), refreshed-rows qs)
  ]

-- A refresh of a pipeline run leaves the rows of other runs as they are; the run is completed
-- after it exactly if it has a wave, each of its waves succeeded and nothing that its selection
-- discovers remains in the inventory, or if it has no wave or one that did not succeed and it
-- was completed before.
pub refresh_dynamic_pipeline_run-completes :
    (matches : Text → Text → Bool) (now : ℕ) (r : PipelineRun) (db : Db)
    → Pairs
        (IsRefreshed matches db r.id)
        db.runs
        (refresh_dynamic_pipeline_run matches now r db).runs
unfolding refresh_dynamic_pipeline_run refreshed
refresh_dynamic_pipeline_run-completes matches now r db = refreshed-rows matches now r.id db db.runs
