-- ===== src/Lane/Tests.antt =====
-- Priorities and claims on the sample database.
use copy_s3_to_oci.Base.{
  ◌==◌, ℕ, All, ◌≤◌, ◌≡◌, refl, true, false, some, none, [], ◌∷◌, arith, map, any, count,
}
use copy_s3_to_oci.Schema.{Db, QueueItem, QueueState, WaveStatus}
use copy_s3_to_oci.Samples.{busy, item, unlocked, wave}
use copy_s3_to_oci.Lane.{is_among}
use copy_s3_to_oci.Lane.Priority.{Bonus}
use copy_s3_to_oci.Lane.Claim.{Settings, prepared, candidate_items, claim_continuous_transfer_batch}
use copy_s3_to_oci.Lane.Claim.Batch.{Selects, claim_continuous_transfer_batch-Selects}
use copy_s3_to_oci.Lane.Claim.Leases.{KeepsLease, claim_continuous_transfer_batch-KeepsLease}
use copy_s3_to_oci.Lane.Preempt.{choose_cooperative_preemption_target}
use copy_s3_to_oci.Lane.Preempt.Handoff.{choose_cooperative_preemption_target-fences}
use copy_s3_to_oci.Lane.Refresh.{refresh_transfer_queue_priorities}
use copy_s3_to_oci.Lane.Dispatch.{lane_task, is_open_work, ensure_transfer_task}
use copy_s3_to_oci.Lane.Dispatch.Single.{ensure_transfer_task-single, ensure_transfer_task-serves}
use copy_s3_to_oci.Lane.Admission.{enqueue_available_transfer_objects}
use copy_s3_to_oci.Lane.Admission.Unique.{
  IsUniquePair, is_object, enqueue_available_transfer_objects-IsUniquePair,
}
use copy_s3_to_oci.Lane.Recover.{abandoned, recover_expired_continuous_item_leases}
use copy_s3_to_oci.Lane.Recover.Drain.{recover_expired_continuous_item_leases-drains}

abbrev bonus : Bonus
bonus = record { fairness = 12; wave = 8; business = 5; small = 2 }

abbrev settings : Settings
settings = record {
  critical_priority = 90;
  batch_max_objects = 1;
  batch_max_bytes = 1000;
  critical_batch_max_objects = 1;
  critical_batch_max_bytes = 500;
  task_lease_seconds = 300;
  min_buffer_seconds = 10800;
}

-- Both items are ready, and the batch takes one.
taken :
    map
      (λ i. i.id)
      (claim_continuous_transfer_batch settings unlocked 9 77 1 2 none none 100 100 busy).0
    ≡ 1 ∷ []
unfolding claim_continuous_transfer_batch
taken = refl

claim_continuous_transfer_batch-Selects_example :
    let ready = prepared settings unlocked 1 100 100 busy in
    let found = claim_continuous_transfer_batch settings unlocked 9 77 1 2 none none 100 100 busy in
    Selects settings none 1 100 (candidate_items unlocked 1 none 100 ready) ready found.0 found.1
claim_continuous_transfer_batch-Selects_example =
    claim_continuous_transfer_batch-Selects settings unlocked 9 77 1 2 none none 100 100 busy

-- Item 1 is under a lease until 500.
abbrev held : QueueItem
held = record (item 1 1 10 1 40 95 QueueState.leased) {
  lease_token = some 55;
  lease_owner = some 8;
  lease_expires_at = some 500;
}

abbrev leasing : Db
leasing = record busy { items = held ∷ item 2 1 10 2 70 40 QueueState.ready ∷ [] }

claim_continuous_transfer_batch-KeepsLease_example :
    let found =
      claim_continuous_transfer_batch settings unlocked 9 77 1 2 none none 100 100 leasing in
    KeepsLease 1 held found.1.items × (is_among found.0 held ≡ false)
claim_continuous_transfer_batch-KeepsLease_example =
    claim_continuous_transfer_batch-KeepsLease settings unlocked 9 77 1 2 none none 100 100 leasing
      1 held (refl, (refl, tt)) refl refl refl

-- Item 1 is copied by a thread; the critical item 3 asks for its slot.
abbrev urgent : QueueItem
urgent = item 3 1 10 2 70 95 QueueState.leased

abbrev running_one : QueueItem
running_one = item 1 1 10 1 40 50 QueueState.leased

abbrev copying : Db
copying = record busy { items = running_one ∷ urgent ∷ [] }

chosen :
    (choose_cooperative_preemption_target unlocked 1 (1 ∷ 3 ∷ []) urgent 90 100 copying).0 ≡ some 1
unfolding choose_cooperative_preemption_target
chosen = refl

abbrev handed_over : Db
unfolding choose_cooperative_preemption_target
handed_over = (choose_cooperative_preemption_target unlocked 1 (1 ∷ 3 ∷ []) urgent 90 100 copying).1

-- Later the urgent item is locked elsewhere and a third item runs too.
choose_cooperative_preemption_target-fences_example :
    choose_cooperative_preemption_target (λ k. k == 3) 1 (4 ∷ 1 ∷ []) urgent 95 159 handed_over
    ≡ (none, handed_over)
unfolding handed_over
choose_cooperative_preemption_target-fences_example =
    choose_cooperative_preemption_target-fences unlocked (λ k. k == 3) 1 (1 ∷ 3 ∷ []) (4 ∷ 1 ∷ [])
      urgent urgent 90 95 100 159 1 copying handed_over chosen refl refl refl (omega arith)
      (omega arith)

-- The items of the sample, with no task.
abbrev lonely : Db
lonely = record busy { tasks = [] }

ensure_transfer_task-single_example :
    let after = (ensure_transfer_task 10800 1 100 100 lonely).1 in
    count (lane_task after 1) after.tasks ≤ 1
ensure_transfer_task-single_example =
    ensure_transfer_task-single 10800 1 100 100 lonely (omega arith)

still_open :
    let fresh = refresh_transfer_queue_priorities 10800 1 100 lonely in
    any (is_open_work fresh 1) fresh.items ≡ true
unfolding refresh_transfer_queue_priorities
still_open = refl

ensure_transfer_task-serves_example :
    let after = (ensure_transfer_task 10800 1 100 100 lonely).1 in
    any (lane_task after 1) after.tasks ≡ true
ensure_transfer_task-serves_example =
    ensure_transfer_task-serves 10800 1 100 100 lonely (refl, (refl, tt)) still_open

-- Object 1 is restored and not in the queue.
abbrev released : Db
released = record busy { items = item 2 1 10 2 70 40 QueueState.ready ∷ [] }

admitted :
    (enqueue_available_transfer_objects 10800 100 (wave 10 1 WaveStatus.restoring) released).0 ≡ 1
unfolding enqueue_available_transfer_objects
admitted = refl

released_once : (k : ℕ) → count (is_object k) released.objects ≤ 1
released_once k = ground arith

released-IsUniquePair : IsUniquePair released
released-IsUniquePair v k = ground arith

enqueue_available_transfer_objects-IsUniquePair_example :
    IsUniquePair
      (enqueue_available_transfer_objects 10800 100 (wave 10 1 WaveStatus.restoring) released).1
enqueue_available_transfer_objects-IsUniquePair_example =
    enqueue_available_transfer_objects-IsUniquePair 10800 100 (wave 10 1 WaveStatus.restoring)
      released released_once released-IsUniquePair

-- The lease of item 1 has run out.
abbrev expired : Db
expired = record busy {
  items = record held { lease_expires_at = some 50 } ∷ item 2 1 10 2 70 40 QueueState.ready ∷ [];
}

recover_expired_continuous_item_leases-drains_example :
    All
      (λ i. abandoned unlocked 1 100 i ≡ false)
      (recover_expired_continuous_item_leases unlocked 1 100 expired).1.items
recover_expired_continuous_item_leases-drains_example =
    recover_expired_continuous_item_leases-drains unlocked 1 100 expired (omega arith)
