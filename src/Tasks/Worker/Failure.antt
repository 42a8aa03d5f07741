-- ===== src/Tasks/Worker/Failure.antt =====
-- What the permanent failure of a task leaves as it is.
use copy_s3_to_oci.Base.{ℕ, ◌≡◌, refl, Option, none, some, arith}
use copy_s3_to_oci.Schema.{Task, TaskState, Wave, RestoreAttempt, Db, get_wave, set_task}
use copy_s3_to_oci.Tasks.Worker.{latest_attempt, note_failure, fail_wave, fail_permanently}

-- The tables that the failure of the wave leaves alone.
abbrev pub SameRows : Db → Db → Type 0
SameRows after before =
    (after.objects ≡ before.objects) × (after.tasks ≡ before.tasks) × (after.items ≡ before.items)

note_failure-SameRows :
    (message : ℕ) (a : Option RestoreAttempt) (db : Db) → SameRows (note_failure message a db) db
note_failure-SameRows message none db = (refl, refl, refl)
note_failure-SameRows message (some a) db = ground arith

fail_wave-SameRows :
    (message : ℕ) (task : Task) (w : Option Wave) (db : Db)
    → SameRows (fail_wave message task w db) db
fail_wave-SameRows message task none db = (refl, refl, refl)
fail_wave-SameRows message task (some w) db =
    ground (arith, note_failure-SameRows message (latest_attempt w.id db) db)

-- The task is failed; objects and queue items stay.
pub fail_permanently-rows :
    (task : Task) (message : ℕ) (db : Db)
    → SameRows (fail_permanently task message db) (
        set_task task.id
          (λ t. record t {
            state = TaskState.failed;
            lease_expires_at = none;
            error = some message;
          })
          db)
unfolding fail_permanently
fail_permanently-rows task message db =
    fail_wave-SameRows message task (get_wave task.wave_id db.waves) _
