-- ===== src/Restore/Report/Evidence.antt =====
-- What a diagnosis without a required action says of the rows.
use copy_s3_to_oci.Base.{
  ℕ, ◌+◌, ◌≡◌, refl, Bool, true, false, ◌||◌, not, Option, List, [], ◌∷◌, arith, length, every,
}
use copy_s3_to_oci.Schema.{ReportRow, RowStatus, Db}
use copy_s3_to_oci.Restore.Report.{
  Diagnosis, tally, diagnose, is_equivalent, evidence_of, restore_result_diagnostics,
  effective_accepted, action_required,
}

abbrev pub is_accepted_row : RowStatus → Option ℕ → Bool
is_accepted_row RowStatus.succeeded code = true
is_accepted_row RowStatus.pending code = false
is_accepted_row RowStatus.other code = is_equivalent code

tally-total :
    (s : RowStatus) (code : Option ℕ) (d : Diagnosis)
    → effective_accepted (tally s code d)
        + (tally s code d).unexpected_failed
        + (tally s code d).pending_evidence
      ≡ effective_accepted d + d.unexpected_failed + d.pending_evidence + 1
tally-total RowStatus.succeeded code d = omega arith
tally-total RowStatus.pending code d = omega arith
tally-total RowStatus.other code d = ground arith

tally-action_required :
    (s : RowStatus) (code : Option ℕ) (d : Diagnosis)
    → action_required (tally s code d) ≡ (action_required d || not (is_accepted_row s code))
tally-action_required RowStatus.succeeded code d = ground arith
tally-action_required RowStatus.pending code d = ground arith
tally-action_required RowStatus.other code d = ground arith

diagnose-total :
    (rows : List ReportRow)
    → effective_accepted (diagnose rows)
        + (diagnose rows).unexpected_failed
        + (diagnose rows).pending_evidence
      ≡ length rows
unfolding diagnose
diagnose-total [] = refl
diagnose-total (r ∷ rs) =
    omega (arith, tally-total r.task_status r.error_code (diagnose rs), diagnose-total rs)

diagnose-action_required :
    (rows : List ReportRow)
    → action_required (diagnose rows)
      ≡ not (every (λ r. is_accepted_row r.task_status r.error_code) rows)
unfolding diagnose
diagnose-action_required [] = refl
diagnose-action_required (r ∷ rs) = ground (
  arith,
  tally-action_required r.task_status r.error_code (diagnose rs),
  diagnose-action_required rs,
)

-- The diagnosis of a job counts each of its rows once, and asks for an action exactly if some
-- row is neither a success nor a restore that was already in progress.
pub restore_result_diagnostics-accepts :
    (attempt : ℕ) (db : Db)
    → let d = restore_result_diagnostics attempt db in
      let rows = evidence_of attempt db in
      (effective_accepted d + d.unexpected_failed + d.pending_evidence ≡ length rows)
      × (action_required d ≡ not (every (λ r. is_accepted_row r.task_status r.error_code) rows))
unfolding restore_result_diagnostics
restore_result_diagnostics-accepts attempt db =
    (diagnose-total (evidence_of attempt db), diagnose-action_required (evidence_of attempt db))
