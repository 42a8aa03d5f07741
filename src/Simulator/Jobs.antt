-- ===== src/Simulator/Jobs.antt =====
-- The restore jobs of app/simulation_engine.py: `append_restore_job_objects` and `finalize_restore_job`, over
-- the results of one job and the objects of its bucket by their keys. The faults that the rules inject and
-- the delays that the seed gives are arguments, by key; a configuration that is refused raises before the loop.
pub mod Retry
mod Tests
use copy_s3_to_oci.Base.{
  ℕ, ◌+◌, Bool, true, false, not, ◌&&◌, Option, none, some, List, [], ◌∷◌, ◌++◌, ◌==◌, any, count,
  holds, is_none, is_some, if◌then◌else◌,
}
use copy_s3_to_oci.Simulator.Restores.{
  VirtualObject, Fault, is_expired, cleared, extra, requested_until,
}
use copy_s3_to_oci.Simulator.Restores.Fault.{refusal}

pub record ObjectResult : Type 0 where
  pub key : ℕ
  pub accepted : Bool
  pub already_in_progress : Bool

-- `objects` gives the version of an object too.
pub record Results : Type 0 where
  pub rows : List ObjectResult
  pub objects : ℕ → Option (ℕ × VirtualObject)

pub record Conditions : Type 0 where
  pub now : ℕ
  pub retention_days : ℕ
  pub faults : ℕ → Fault
  pub delays : ℕ → ℕ

abbrev pub has_key : ℕ → ObjectResult → Bool
has_key key r = r.key == key

abbrev pub answered : ℕ → Bool → Bool → Results → Results
answered key accepted already s = record s {
  rows = s.rows ++ record { key = key; accepted = accepted; already_in_progress = already } ∷ [];
}

abbrev pub stored : ℕ → ℕ → VirtualObject → Results → Results
stored key version item s = record s {
  objects = λ other. if other == key then some (version, item) else s.objects other;
}

abbrev pub started_unless : Option ℕ → ℕ → ℕ → ℕ → VirtualObject → VirtualObject
started_unless (some at) now opens retention item = item
started_unless none now opens retention item = requested_until now opens retention item

abbrev pub request_object : Conditions → Fault → ℕ → ℕ → VirtualObject → Results → Results
request_object c refusal key version item s = answered key false false (stored key version item s)
request_object c fault key version item s = answered key true (is_some item.restore_requested_at) (
    stored key version
      (started_unless item.restore_requested_at c.now (c.now + (c.delays key + extra fault))
        c.retention_days item)
      s)

abbrev pub other_version : Option ℕ → ℕ → Bool
other_version none version = false
other_version (some wanted) version = not (wanted == version)

abbrev pub request_found :
    Conditions → ℕ → Option ℕ → Option (ℕ × VirtualObject) → Results → Results
request_found c key wanted none s = answered key false false s
request_found c key wanted (some (version, item)) s =
    if other_version wanted version
    then answered key false false s
    else request_object c (c.faults key) key version
        (if is_expired item c.now then cleared item else item) s

-- One turn of the loop.
abbrev pub append_object : Conditions → ℕ × Option ℕ → Results → Results
append_object c (key, wanted) s =
    if any (has_key key) s.rows then s else request_found c key wanted (s.objects key) s

unfoldable pub append_restore_job_objects : Conditions → List (ℕ × Option ℕ) → Results → Results
append_restore_job_objects c [] s = s
append_restore_job_objects c (identity ∷ rest) s =
    append_restore_job_objects c rest (append_object c identity s)

pub data JobState : Type 0 where
  processing : JobState
  failed : JobState
  complete : JobState

pub record RestoreJob : Type 0 where
  pub state : JobState
  pub object_count : ℕ
  pub manifest_sha256 : ℕ
  pub accepted_count : ℕ
  pub failed_count : ℕ

abbrev pub is_accepted : ObjectResult → Bool
is_accepted r = r.accepted

abbrev pub is_failed : ObjectResult → Bool
is_failed r = not r.accepted

-- The job is FAILED where the function raises SimulatedDataIntegrityError.
unfoldable pub finalize_restore_job : ℕ → List ObjectResult → RestoreJob → RestoreJob
finalize_restore_job observed rows job =
    let accepted = count is_accepted rows in
    let failures = count is_failed rows in
    if not (observed == job.manifest_sha256)
    then record job { state = JobState.failed }
    else if not (accepted + failures == job.object_count)
    then record job { state = JobState.failed }
    else record job {
      state = JobState.complete;
      accepted_count = accepted;
      failed_count = failures;
    }
