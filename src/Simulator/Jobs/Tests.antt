-- ===== src/Simulator/Jobs/Tests.antt =====
-- A manifest of three keys, one of them unknown, sent in part and then as a whole.
use copy_s3_to_oci.Base.{ℕ, ◌≡◌, refl, Option, none, some, List, [], ◌∷◌, ◌++◌, ◌==◌, if◌then◌else◌}
use copy_s3_to_oci.Simulator.Restores.{VirtualObject, StorageClass, RestoreState, Fault}
use copy_s3_to_oci.Simulator.Jobs.{
  Results, Conditions, RestoreJob, JobState, append_restore_job_objects, finalize_restore_job,
}
use copy_s3_to_oci.Simulator.Jobs.Retry.{finalize_restore_job-resumed}

abbrev archived_object : VirtualObject
archived_object = record {
  storage_class = StorageClass.deep_archive;
  restore_state = RestoreState.archived;
  restore_requested_at = none;
  restore_available_at = none;
  restore_expires_at = none;
}

abbrev bucket : ℕ → Option (ℕ × VirtualObject)
bucket key = if key == 9 then none else some (1, archived_object)

abbrev at_once : Conditions
at_once = record {
  now = 100;
  retention_days = 2;
  faults = λ key. Fault.no_fault;
  delays = λ key. 3600;
}

abbrev later_on : Conditions
later_on = record {
  now = 900;
  retention_days = 2;
  faults = λ key. if key == 3 then Fault.refusal else Fault.no_fault;
  delays = λ key. 3600;
}

abbrev sent : List (ℕ × Option ℕ)
sent = (7, some 1) ∷ []

abbrev unsent : List (ℕ × Option ℕ)
unsent = (3, none) ∷ (9, none) ∷ []

abbrev job : RestoreJob
job = record {
  state = JobState.processing;
  object_count = 3;
  manifest_sha256 = 42;
  accepted_count = 0;
  failed_count = 0;
}

abbrev begun : Results
unfolding append_restore_job_objects
begun = append_restore_job_objects at_once sent (record { rows = []; objects = bucket })

one_accepted :
    (finalize_restore_job 42
      (append_restore_job_objects later_on (sent ++ unsent) begun).rows
      job).failed_count
    ≡ 2
unfolding append_restore_job_objects finalize_restore_job begun
one_accepted = refl

finalize_restore_job-resumed_example :
    let begun = append_restore_job_objects at_once sent (record { rows = []; objects = bucket }) in
    let done = append_restore_job_objects later_on (sent ++ unsent) begun in
    (done ≡ append_restore_job_objects later_on unsent begun)
    × ((finalize_restore_job job.manifest_sha256 done.rows job).state ≡ JobState.complete)
finalize_restore_job-resumed_example =
    finalize_restore_job-resumed at_once later_on sent unsent bucket job
      ((refl, (refl, tt)), ((refl, tt), (tt, tt))) refl
