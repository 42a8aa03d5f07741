-- ===== src/Worker/Tests.antt =====
-- A poll whose DescribeJob raises.
use copy_s3_to_oci.Base.{◌≡◌, refl, none, some, [], ◌∷◌, inl, map}
use copy_s3_to_oci.Schema.{ObjectState, TaskState, TaskKind, WaveStatus, Task, Wave, Db}
use copy_s3_to_oci.Samples.{wave, object, task, idle}
use copy_s3_to_oci.Worker.Errors.{Error}
use copy_s3_to_oci.Worker.Loop.{handled}
use copy_s3_to_oci.Worker.Loop.Handles.{handled-poll_restore-AreReleased}
use copy_s3_to_oci.Restore.Heads.{Head}
use copy_s3_to_oci.Restore.Poll as Polling
use copy_s3_to_oci.Restore.Poll.{poll_restore}
use copy_s3_to_oci.Restore.Poll.Released.{AreReleased}

abbrev cold : Db
cold = record idle {
  objects =
      record (object 1 1 40 (some 11) ObjectState.wave_assigned) { storage_class = some 1 } ∷ [];
  tasks = task 50 11 TaskKind.poll_restore TaskState.running (some 500) (some 7) ∷ [];
}

abbrev polling : Task
polling = task 50 11 TaskKind.poll_restore TaskState.running (some 500) (some 7)

abbrev pending : Wave
pending = record (wave 11 1 WaveStatus.restore_requested) { batch_job_id = some 900 }

abbrev throttled : Polling.Aws
throttled = record {
  describe = λ job. inl (Error.client (some 503) (some 2));
  report = λ attempt. none;
  head = λ key version. Head.waiting;
  elapsed = λ requests. 0;
}

handled-poll_restore-AreReleased_example :
    AreReleased 200 50
      (handled 2 200 polling (poll_restore throttled 1 2 0 200 polling pending cold))
handled-poll_restore-AreReleased_example =
    handled-poll_restore-AreReleased throttled 1 2 0 200 polling pending cold

retried :
    map
      (λ t. t.state)
      (handled 2 200 polling (poll_restore throttled 1 2 0 200 polling pending cold)).tasks
    ≡ TaskState.ready ∷ []
unfolding handled poll_restore
retried = refl
