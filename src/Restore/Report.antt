-- ===== src/Restore/Report.antt =====
-- `import_completion_report` of app/real_worker.py and `restore_result_diagnostics` of app/main.py:
-- the evidence of each object of one S3 Batch job. What is only shown (the grouped reasons and their
-- texts) is left out. Error code 1 is RestoreAlreadyInProgress.
pub mod Evidence
use copy_s3_to_oci.Base.{
  ℕ, ◌+◌, Bool, true, false, ◌&&◌, ◌||◌, not, Option, none, some, List, [], ◌∷◌, ◌++◌, ◌==◌, holds,
  leb, ltb, any, select, update_where, is_some, if◌then◌else◌, text_eq, same_value, length,
}
use copy_s3_to_oci.Schema.{
  ObjectRecord, RestoreAttempt, ReportRow, RowStatus, Db, set_attempt, get_object,
}
use copy_s3_to_oci.Restore.Quote.{unquote}

-- One row of a report file: how many fields it has, and the fields that are read.
pub record Line : Type 0 where
  pub fields : ℕ
  pub key : List ℕ
  pub version_id : Option ℕ
  pub task_status : RowStatus
  pub http_status : Option ℕ
  pub error_code : Option ℕ
  pub error_message : Option ℕ

-- What S3 holds below the attempt's report prefix: the pages that list it, the first key that ends
-- in manifest.json, and the rows of each report file that the manifest names.
pub record Published : Type 0 where
  pub pages : ℕ
  pub manifest : Option ℕ
  pub files : List (List Line)

-- `objects_by_key.get((key, version))`: of objects with the same key, the last one.
abbrev pub by_key : List ℕ → Option ℕ → List ObjectRecord → Option ObjectRecord
by_key key version [] = none
by_key key version (o ∷ os) =
    let later = by_key key version os in
    if is_some later
    then later
    else if text_eq o.object_key key && same_value o.version_id version
    then some o
    else none

abbrev pub or_else : Option ObjectRecord → Option ObjectRecord → Option ObjectRecord
or_else none b = b
or_else (some a) b = some a

unfoldable pub object_of_line : List ObjectRecord → Line → Option ObjectRecord
unfolding unquote
object_of_line objects l =
    or_else (by_key (unquote l.key) l.version_id objects) (by_key l.key l.version_id objects)

abbrev pub is_outcome : ℕ → ℕ → ReportRow → Bool
is_outcome attempt object r = r.attempt_id == attempt && r.object_id == object

abbrev pub new_outcome : ℕ → ℕ → ℕ → ReportRow
new_outcome key attempt object = record {
  id = key;
  attempt_id = attempt;
  object_id = object;
  task_status = RowStatus.pending;
  http_status = none;
  error_code = none;
  error_message = none;
}

abbrev pub ensure_outcome : ℕ → ℕ → Db → Db
ensure_outcome attempt object db =
    if any (is_outcome attempt object) db.results then db else record db {
      results = db.results ++ new_outcome db.next_id attempt object ∷ [];
      next_id = db.next_id + 1;
    }

abbrev pub said : Line → ReportRow → ReportRow
said l r = record r {
  task_status = l.task_status;
  http_status = l.http_status;
  error_code = l.error_code;
  error_message = l.error_message;
}

-- `session.scalar` of the outcome finds one row: an attempt has at most one row for an object.
abbrev pub record_line : ℕ → Line → Option ObjectRecord → Db → Db
record_line attempt l none db = db
record_line attempt l (some o) db =
    let ready = ensure_outcome attempt o.id db in
    record ready { results = update_where (is_outcome attempt o.id) (said l) ready.results }

unfoldable pub import_lines : ℕ → List ObjectRecord → List Line → Db → Db
unfolding object_of_line
import_lines attempt objects [] db = db
import_lines attempt objects (l ∷ ls) db =
    import_lines attempt objects ls
      (if ltb l.fields 7 then db else record_line attempt l (object_of_line objects l) db)

unfoldable pub import_files : ℕ → List ObjectRecord → List (List Line) → Db → Db
unfolding import_lines
import_files attempt objects [] db = db
import_files attempt objects (f ∷ fs) db =
    import_files attempt objects fs (import_lines attempt objects f db)

abbrev pub counted : ℕ → ℕ → RestoreAttempt → RestoreAttempt
counted lists gets a = record a {
  completion_report_list_requests = a.completion_report_list_requests + lists;
  completion_report_get_requests = a.completion_report_get_requests + gets;
}

-- With the request counters that `poll_restore` adds from the returned metrics.
abbrev pub import_manifest :
    ℕ → List ObjectRecord → ℕ → Option ℕ → List (List Line) → Db → Bool × Db
import_manifest attempt objects pages none files db =
    (false, set_attempt attempt (counted pages 0) db)
import_manifest attempt objects pages (some key) files db = (
  true,
  set_attempt attempt
      (λ a. record (counted pages (1 + length files) a) { report_manifest_key = some key })
      (import_files attempt objects files db),
)

unfoldable pub import_completion_report : ℕ → List ObjectRecord → Published → Db → Bool × Db
unfolding import_files
import_completion_report attempt objects p db =
    import_manifest attempt objects p.pages p.manifest p.files db

pub record Diagnosis : Type 0 where
  pub raw_succeeded : ℕ
  pub accepted_equivalent : ℕ
  pub unexpected_failed : ℕ
  pub pending_evidence : ℕ

-- RESTORE_ACCEPTED_EQUIVALENT_ERROR_CODES.
abbrev pub is_equivalent : Option ℕ → Bool
is_equivalent none = false
is_equivalent (some code) = code == 1

abbrev pub tally : RowStatus → Option ℕ → Diagnosis → Diagnosis
tally RowStatus.succeeded code d = record d { raw_succeeded = d.raw_succeeded + 1 }
tally RowStatus.pending code d = record d { pending_evidence = d.pending_evidence + 1 }
tally RowStatus.other code d =
    if is_equivalent code
    then record d { accepted_equivalent = d.accepted_equivalent + 1 }
    else record d { unexpected_failed = d.unexpected_failed + 1 }

unfoldable pub diagnose : List ReportRow → Diagnosis
diagnose [] = record {
  raw_succeeded = 0;
  accepted_equivalent = 0;
  unexpected_failed = 0;
  pending_evidence = 0;
}
diagnose (r ∷ rs) = tally r.task_status r.error_code (diagnose rs)

-- The rows of the attempt, joined with the objects.
abbrev pub evidence_of : ℕ → Db → List ReportRow
evidence_of attempt db =
    select (λ r. r.attempt_id == attempt && is_some (get_object r.object_id db.objects)) db.results

unfoldable pub restore_result_diagnostics : ℕ → Db → Diagnosis
unfolding diagnose
restore_result_diagnostics attempt db = diagnose (evidence_of attempt db)

abbrev pub effective_accepted : Diagnosis → ℕ
effective_accepted d = d.raw_succeeded + d.accepted_equivalent

abbrev pub action_required : Diagnosis → Bool
action_required d = ltb 0 d.unexpected_failed || ltb 0 d.pending_evidence
