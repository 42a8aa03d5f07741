-- ===== src/Tasks/Tests.antt =====
-- Claims and requests on the sample database.
use copy_s3_to_oci.Base.{◌≡◌, refl, some, none, [], ◌∷◌, arith}
use copy_s3_to_oci.Schema.{get_task}
use copy_s3_to_oci.Samples.{busy, unlocked, any_kind, task}
use copy_s3_to_oci.Schema.{TaskKind, TaskState}
use copy_s3_to_oci.Tasks.{IsUnique}
use copy_s3_to_oci.Tasks.Api
use copy_s3_to_oci.Tasks.Worker
use copy_s3_to_oci.Tasks.Api.Fences.{Claims, claim_task-Claims, IsRefused, claim_task-IsRefused}
use copy_s3_to_oci.Tasks.Api.Terminal.{Request, run, run-ended}
use copy_s3_to_oci.Tasks.Worker.OneLane.{IsOneLane, claim_task-IsOneLane}

busy-IsUnique : IsUnique busy.tasks
busy-IsUnique = ground arith

-- The API's claim takes the poll first; the dispatcher 3 is not claimed by the worker.
api_claim : (Api.claim_task unlocked 9 300 100 busy).0 ≡ some 1
unfolding Api.claim_task Api.eligible
api_claim = refl

claim_task-Claims_example :
    Claims unlocked 9 300 100 1 busy (Api.claim_task unlocked 9 300 100 busy).1
claim_task-Claims_example = claim_task-Claims unlocked 9 300 100 busy 1 busy-IsUnique api_claim

claim_task-IsRefused_example : IsRefused 1 8 (Api.claim_task unlocked 9 300 100 busy).1
claim_task-IsRefused_example =
    claim_task-IsRefused unlocked 9 8 300 100 busy 1 busy-IsUnique (omega arith) api_claim

run-ended_example :
    get_task 4 (run busy (Request.claim unlocked 9 300 100 ∷ Request.succeed 1 9 ∷ [])).tasks
    ≡ some (task 4 20 TaskKind.transfer_continuous TaskState.succeeded none (some 7))
run-ended_example =
    run-ended busy (Request.claim unlocked 9 300 100 ∷ Request.succeed 1 9 ∷ []) 4 _ busy-IsUnique
      refl refl

busy-IsOneLane : IsOneLane 100 busy
busy-IsOneLane s = ground arith

claim_task-IsOneLane_example : IsOneLane 100 (Worker.claim_task unlocked 9 any_kind 300 100 busy).1
claim_task-IsOneLane_example =
    claim_task-IsOneLane unlocked 9 any_kind 300 100 busy busy-IsUnique busy-IsOneLane
