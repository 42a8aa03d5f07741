-- ===== src/Restore/Core.antt =====
-- `restore_availability_poll_delay_seconds` of app/main.py, and of app/real_worker.py the archive
-- classes, `archive_objects`, `restore_attempt_for_job` and `fail_restore_attempt`.
use copy_s3_to_oci.Base.{
  ℕ, ◌+◌, ◌-◌, ◌*◌, Bool, true, false, ◌&&◌, not, Option, none, some, List, [], ◌∷◌, ◌++◌, holds,
  ltb, leb, select, order_by, count, find_by, if◌then◌else◌,
}
use copy_s3_to_oci.Schema.{
  ObjectRecord, Wave, WaveStatus, Task, RestoreAttempt, Tier, Policy, Db, EventKind,
  is_wave_assigned, is_pending_restore, set_wave, set_attempt, new_attempt, log,
}
use copy_s3_to_oci.Scope.{text_lt}
use copy_s3_to_oci.Tasks.Worker.{fail_permanently}

abbrev pub expected_window : Tier → ℕ
expected_window Tier.bulk = 172800
expected_window Tier.standard = 43200
expected_window Tier.expedited = 1800

abbrev pub elapsed_since : Option ℕ → ℕ → ℕ
elapsed_since none now = 0
elapsed_since (some accepted) now = now - accepted

abbrev pub is_early_release : Policy → Bool
is_early_release Policy.as_objects_available = true
is_early_release Policy.after_all_restored = false

unfoldable pub restore_availability_poll_delay_seconds : Option ℕ → ℕ → Tier → Bool → Policy → ℕ → ℕ
restore_availability_poll_delay_seconds accepted_at now tier partial strategy pending =
    if partial
    then (if not (is_early_release strategy)
        then 1800
        else if leb pending 5000
        then 300
        else if leb pending 50000
        then 600
        else 1800)
    else if ltb (2 * elapsed_since accepted_at now) (expected_window tier)
    then 7200
    else if ltb (4 * elapsed_since accepted_at now) (3 * expected_window tier)
    then 3600
    else 1800

-- ARCHIVE_CLASSES: GLACIER, DEEP_ARCHIVE and the two archive tiers of INTELLIGENT_TIERING are the
-- storage classes 1 to 4.
abbrev pub is_archive : Option ℕ → Bool
is_archive none = false
is_archive (some class) = leb 1 class && leb class 4

abbrev pub in_wave : ℕ → ObjectRecord → Bool
in_wave wave o = holds o.wave_id wave

abbrev pub is_unsubmitted : ℕ → ObjectRecord → Bool
is_unsubmitted wave o = in_wave wave o && is_archive o.storage_class && is_wave_assigned o.state

abbrev pub key_order : ObjectRecord → ObjectRecord → Bool
key_order o p = not (text_lt p.object_key o.object_key)

unfoldable pub archive_objects : ℕ → Db → List ObjectRecord
archive_objects wave db = order_by key_order (select (is_unsubmitted wave) db.objects)

-- The archived objects whose restore is not seen as finished yet.
abbrev pub is_awaited : ℕ → ObjectRecord → Bool
is_awaited wave o = in_wave wave o && is_archive o.storage_class && is_pending_restore o.state

-- `message` is the text "Legacy restore attempt observed after platform upgrade".
abbrev pub adopt_attempt : ℕ → Wave → Db → RestoreAttempt × Db
adopt_attempt message w db =
    let fresh =
      new_attempt db.next_id w w.batch_job_id (count (in_wave w.id) db.objects) (some message) in
    (fresh, record db { attempts = db.attempts ++ fresh ∷ []; next_id = db.next_id + 1 })

abbrev pub attempt_or_adopt : ℕ → Wave → Db → Option RestoreAttempt → RestoreAttempt × Db
attempt_or_adopt message w db none = adopt_attempt message w db
attempt_or_adopt message w db (some a) = (a, db)

abbrev pub attempt_of_job : Option ℕ → Db → Option RestoreAttempt
attempt_of_job none db = none
attempt_of_job (some job) db = find_by (λ a. holds a.job_id job) db.attempts

unfoldable pub restore_attempt_for_job : ℕ → Wave → Db → RestoreAttempt × Db
restore_attempt_for_job message w db =
    attempt_or_adopt message w db (attempt_of_job w.batch_job_id db)

abbrev pub failed_attempt : ℕ → ℕ → RestoreAttempt → RestoreAttempt
failed_attempt message now a = record a { failure_summary = some message; completed_at = some now }

unfoldable pub fail_restore_attempt : ℕ → ℕ → Task → Wave → RestoreAttempt → Db → Db
unfolding fail_permanently
fail_restore_attempt message now task w a db = fail_permanently task message (
    log EventKind.restore_request_failed (some w.source_id) (some w.id) (
      set_wave w.id
        (λ v. record v {
          status = WaveStatus.restore_request_failed;
          batch_job_status = a.job_status;
        })
        (set_attempt a.id (failed_attempt message now) db)))
