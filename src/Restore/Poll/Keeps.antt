-- ===== src/Restore/Poll/Keeps.antt =====
-- The tables that the steps of a poll leave as they are.
use copy_s3_to_oci.Base.{
  ℕ, ◌≡◌, refl, ◌∙◌, Bool, true, false, Option, none, some, List, [], ◌∷◌, ltb, any, arith,
  if◌then◌else◌, Bool-cases, inl, inr,
}
use copy_s3_to_oci.Schema.{
  RestoreAttempt, ObjectRecord, QueueItem, Wave, WaveStatus, Task, Db, set_wave,
}
use copy_s3_to_oci.Lane.Admission.{
  admit, admitted_page, enqueue_page, enqueue_available_transfer_objects,
}
use copy_s3_to_oci.Lane.Refresh.{refresh_transfer_queue_priorities}
use copy_s3_to_oci.Lane.Dispatch.{lane_task, add_dispatcher, ensure_transfer_task}
use copy_s3_to_oci.Restore.Core.{
  is_early_release, fail_restore_attempt, attempt_or_adopt, attempt_of_job, restore_attempt_for_job,
}
use copy_s3_to_oci.Restore.Poll.{polled_once, release_early, poll_again, finish_poll}
use copy_s3_to_oci.Tasks.Worker.Failure.{fail_permanently-rows}
use copy_s3_to_oci.Tasks.Worker.{retry, succeed}
use copy_s3_to_oci.Restore.Report.{
  Line, Published, object_of_line, record_line, import_lines, import_files, import_manifest,
  import_completion_report,
}

pub admit-objects :
    (reserve now : ℕ) (w : Wave) (before : Db) (os : List ObjectRecord) (db : Db)
    → (admit reserve now w before os db).objects ≡ db.objects
unfolding admit
admit-objects reserve now w before [] db = refl
admit-objects reserve now w before (o ∷ os) db = admit-objects reserve now w before os _

enqueue_page-objects :
    (reserve now : ℕ) (w : Wave) (os : List ObjectRecord) (db : Db)
    → (enqueue_page reserve now w os db).1.objects ≡ db.objects
unfolding admit
enqueue_page-objects reserve now w [] db = refl
enqueue_page-objects reserve now w (o ∷ os) db = admit-objects reserve now w db (o ∷ os) db

pub enqueue_available_transfer_objects-objects :
    (reserve now : ℕ) (w : Wave) (db : Db)
    → (enqueue_available_transfer_objects reserve now w db).1.objects ≡ db.objects
unfolding enqueue_available_transfer_objects
enqueue_available_transfer_objects-objects reserve now w db =
    enqueue_page-objects reserve now w (admitted_page w.id db) db

add_dispatcher-objects :
    (source now : ℕ) (is : List QueueItem) (db : Db)
    → (add_dispatcher source now is db).1.objects ≡ db.objects
add_dispatcher-objects source now [] db = refl
add_dispatcher-objects source now (i ∷ is) db = refl

pub ensure_transfer_task-objects :
    (reserve source priority_now now : ℕ) (db : Db)
    → (ensure_transfer_task reserve source priority_now now db).1.objects ≡ db.objects
unfolding ensure_transfer_task refresh_transfer_queue_priorities
ensure_transfer_task-objects reserve source priority_now now db =
    elim (Bool-cases (any (lane_task db source) db.tasks)) [
      | inl busy ↦ rw (busy, if◌then◌else◌) refl
      | inr idle ↦ rw (idle, if◌then◌else◌) (add_dispatcher-objects source now _ _)
    ]

record_line-objects :
    (attempt : ℕ) (l : Line) (o : Option ObjectRecord) (db : Db)
    → (record_line attempt l o db).objects ≡ db.objects
record_line-objects attempt l none db = refl
record_line-objects attempt l (some o) db = ground arith

guarded-objects :
    (short : Bool) (after db : Db)
    → after.objects ≡ db.objects
    → (if short then db else after).objects ≡ db.objects
guarded-objects true after db h = refl
guarded-objects false after db h = h

import_lines-objects :
    (attempt : ℕ) (objects : List ObjectRecord) (ls : List Line) (db : Db)
    → (import_lines attempt objects ls db).objects ≡ db.objects
unfolding import_lines
import_lines-objects attempt objects [] db = refl
import_lines-objects attempt objects (l ∷ ls) db =
    import_lines-objects attempt objects ls _
    ∙ guarded-objects (ltb l.fields 7) _ db
        (record_line-objects attempt l (object_of_line objects l) db)

import_files-objects :
    (attempt : ℕ) (objects : List ObjectRecord) (fs : List (List Line)) (db : Db)
    → (import_files attempt objects fs db).objects ≡ db.objects
unfolding import_files
import_files-objects attempt objects [] db = refl
import_files-objects attempt objects (f ∷ fs) db =
    import_files-objects attempt objects fs _ ∙ import_lines-objects attempt objects f db

import_manifest-objects :
    (attempt : ℕ) (objects : List ObjectRecord) (pages : ℕ) (key : Option ℕ)
    (files : List (List Line)) (db : Db)
    → (import_manifest attempt objects pages key files db).1.objects ≡ db.objects
import_manifest-objects attempt objects pages none files db = refl
import_manifest-objects attempt objects pages (some key) files db =
    import_files-objects attempt objects files db

pub import_completion_report-objects :
    (attempt : ℕ) (objects : List ObjectRecord) (p : Published) (db : Db)
    → (import_completion_report attempt objects p db).1.objects ≡ db.objects
unfolding import_completion_report
import_completion_report-objects attempt objects p db =
    import_manifest-objects attempt objects p.pages p.manifest p.files db

release_early-objects :
    (reserve now : ℕ) (w : Wave) (db : Db) → (release_early reserve now w db).objects ≡ db.objects
release_early-objects reserve now w db =
    let admitted = enqueue_available_transfer_objects-objects reserve now w db in
    elim (Bool-cases (ltb 0 (enqueue_available_transfer_objects reserve now w db).0)) [
      | inl some_ ↦
          rw (some_, if◌then◌else◌)
            (ensure_transfer_task-objects reserve w.source_id now now _ ∙ admitted)
      | inr none_ ↦ rw (none_, if◌then◌else◌) admitted
    ]

early-objects :
    (early : Bool) (reserve now : ℕ) (w : Wave) (db : Db)
    → (if early then release_early reserve now w db else db).objects ≡ db.objects
early-objects true reserve now w db = release_early-objects reserve now w db
early-objects false reserve now w db = refl

pub poll_again-objects :
    (legacy message reserve now : ℕ) (task : Task) (w : Wave) (db : Db)
    → (poll_again legacy message reserve now task w db).objects ≡ db.objects
unfolding poll_again retry
poll_again-objects legacy message reserve now task w db =
    early-objects (is_early_release w.transfer_release_policy) reserve now w
      (set_wave w.id (polled_once now WaveStatus.restoring) db)

pub finish_poll-objects :
    (reserve now : ℕ) (task : Task) (w : Wave) (db : Db)
    → (finish_poll reserve now task w db).objects ≡ db.objects
unfolding finish_poll succeed
finish_poll-objects reserve now task w db =
    ensure_transfer_task-objects reserve w.source_id now now _
    ∙ enqueue_available_transfer_objects-objects reserve now w _

pub fail_restore_attempt-objects :
    (message now : ℕ) (task : Task) (w : Wave) (a : RestoreAttempt) (db : Db)
    → (fail_restore_attempt message now task w a db).objects ≡ db.objects
unfolding fail_restore_attempt
fail_restore_attempt-objects message now task w a db = (fail_permanently-rows task message _).0

attempt_or_adopt-objects :
    (legacy : ℕ) (w : Wave) (a : Option RestoreAttempt) (db : Db)
    → (attempt_or_adopt legacy w db a).1.objects ≡ db.objects
attempt_or_adopt-objects legacy w none db = refl
attempt_or_adopt-objects legacy w (some a) db = refl

pub restore_attempt_for_job-objects :
    (legacy : ℕ) (w : Wave) (db : Db) → (restore_attempt_for_job legacy w db).1.objects ≡ db.objects
unfolding restore_attempt_for_job
restore_attempt_for_job-objects legacy w db =
    attempt_or_adopt-objects legacy w (attempt_of_job w.batch_job_id db) db
