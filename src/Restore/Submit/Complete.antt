-- ===== src/Restore/Submit/Complete.antt =====
-- What a submission requests, and the evidence that it waits for.
use copy_s3_to_oci.Base.{
  any-order_by, count-added, ℕ, ◌+◌, ◌≡◌, inl, inr, refl, sym, subst, ◌∙◌, Bool, true, false, ◌&&◌,
  Option, none, some, ◌⊎◌, List, [], ◌∷◌, ◌==◌, arith, any, count, select, length, update_where,
  if◌then◌else◌, Bool-cases, All, All-map_of, All-update_where, All-not_any, All-update_where_any,
}
use copy_s3_to_oci.Schema.{
  ObjectRecord, ObjectState, Wave, Task, Source, ReportRow, RowStatus, JobStatus, EventKind, Db,
}
use copy_s3_to_oci.Tasks.Worker.{succeed}
use copy_s3_to_oci.Worker.Errors.{Error}
use copy_s3_to_oci.Restore.Core.{is_unsubmitted, key_order, archive_objects}
use copy_s3_to_oci.Restore.Report.{new_outcome}
use copy_s3_to_oci.Restore.Submit.{
  Step, Aws, request_objects, submitted, skip_restore, validate_restore_preflight, submit_to_aws,
  submit_archives, submit_restore, available_wave, manifest, is_assigned_to, Simulator,
  after_create, after_put, after_preflight, open_attempt, accept_simulated, after_submit,
  submit_restore_simulated, submit_somewhere,
}
use copy_s3_to_oci.Lane.Admission.{enqueue_available_transfer_objects}
use copy_s3_to_oci.Lane.Dispatch.{ensure_transfer_task}
use copy_s3_to_oci.Restore.Poll.Keeps.{
  enqueue_available_transfer_objects-objects, ensure_transfer_task-objects,
}

abbrev pub is_pending_row : RowStatus → Bool
is_pending_row RowStatus.pending = true
is_pending_row _ = false

-- A row of the attempt that still waits for its evidence.
abbrev pub awaits : ℕ → ReportRow → Bool
awaits attempt r = r.attempt_id == attempt && is_pending_row r.task_status

abbrev among : List ObjectRecord → ObjectRecord → Bool
among os p = any (λ o. o.id == p.id) os

-- Whatever is unsubmitted is among the objects still to be requested.
abbrev IsListed : ℕ → List ObjectRecord → ObjectRecord → Type 0
IsListed wave os p = is_unsubmitted wave p ≡ true → among os p ≡ true

first :
    (wave : ℕ) (x : ObjectRecord) (xs : List ObjectRecord)
    → IsListed wave (select (is_unsubmitted wave) (x ∷ xs)) x
first wave x xs e = rw (e, select) (ground arith)

grown :
    (wave : ℕ) (x : ObjectRecord) (xs : List ObjectRecord) (p : ObjectRecord)
    → IsListed wave (select (is_unsubmitted wave) xs) p
    → IsListed wave (select (is_unsubmitted wave) (x ∷ xs)) p
grown wave x xs p h e = elim (Bool-cases (is_unsubmitted wave x)) [
  | inl f ↦ rw (f, select) (rw (h e, any) (ground arith))
  | inr f ↦ rw (f, select) (h e)
]

select-IsListed :
    (wave : ℕ) (xs : List ObjectRecord) → All (IsListed wave (select (is_unsubmitted wave) xs)) xs
select-IsListed wave [] = tt
select-IsListed wave (x ∷ xs) =
    (first wave x xs, All-map_of (λ p h. grown wave x xs p h) xs (select-IsListed wave xs))

archive_objects-IsListed :
    (wave : ℕ) (db : Db) → All (IsListed wave (archive_objects wave db)) db.objects
unfolding archive_objects
archive_objects-IsListed wave db =
    All-map_of
      (λ p h e.
        any-order_by (λ o. o.id == p.id) key_order (select (is_unsubmitted wave) db.objects) ∙ h e)
      db.objects (select-IsListed wave db.objects)

request_objects-none_left :
    (wave now attempt : ℕ) (os : List ObjectRecord) (db : Db)
    → All (IsListed wave os) db.objects
    → any (is_unsubmitted wave) (request_objects now attempt os db).objects ≡ false
unfolding request_objects
request_objects-none_left wave now attempt [] db h =
    All-not_any (is_unsubmitted wave) db.objects
      (All-map_of (λ p k. ground (arith, k)) db.objects h)
request_objects-none_left wave now attempt (o ∷ os) db h =
    request_objects-none_left wave now attempt os _ (
      All-update_where {P = IsListed wave (o ∷ os)} {Q = IsListed wave os} (λ p. p.id == o.id) _
        (λ p k e f. ground arith) (λ p k e f. ground (arith, k f)) db.objects h)

new_outcome-awaits :
    (attempt key object : ℕ)
    → ◌≡◌ {A = ℕ} (if awaits attempt (new_outcome key attempt object) then 1 else 0) 1
new_outcome-awaits attempt key object = ground arith

request_objects-awaits :
    (now attempt : ℕ) (os : List ObjectRecord) (db : Db)
    → count (awaits attempt) (request_objects now attempt os db).results
      ≡ count (awaits attempt) db.results + length os
unfolding request_objects
request_objects-awaits now attempt [] db = omega arith
request_objects-awaits now attempt (o ∷ os) db = omega (
  arith,
  request_objects-awaits now attempt os _,
  count-added (awaits attempt) db.results (new_outcome db.next_id attempt o.id),
  new_outcome-awaits attempt db.next_id o.id,
)

abbrev LeavesNone : ℕ → Step → Type 0
LeavesNone wave (Step.done db) = any (is_unsubmitted wave) db.objects ≡ false
LeavesNone wave (Step.raised e db) = Unit

Sum-cases : (a : Error ⊎ ℕ) → ((e : Error) × (a ≡ inl e)) ⊎ ((n : ℕ) × (a ≡ inr n))
Sum-cases (inl e) = inl (e, refl)
Sum-cases (inr n) = inr (n, refl)

pub validate_restore_preflight-objects :
    (aws : Aws) (s : Source) (db : Db)
    → ((validate_restore_preflight aws s db).1.objects ≡ db.objects)
      × ((validate_restore_preflight aws s db).1.results ≡ db.results)
unfolding validate_restore_preflight
validate_restore_preflight-objects aws s db = elim (Sum-cases aws.source_region) [
  | inl (e, f) ↦ rw f (refl, refl)
  | inr (found, f) ↦ elim (Sum-cases aws.control_region) [
    | inl (e, g) ↦ rw (f, g) (refl, refl)
    | inr (control, g) ↦ rw (f, g) (refl, refl)
  ]
]

submitted-none_left :
    (kind : EventKind) (status : JobStatus) (now attempt : ℕ) (task : Task) (w : Wave)
    (archives : List ObjectRecord) (job : ℕ) (db : Db)
    → All (IsListed w.id archives) db.objects
    → any (is_unsubmitted w.id) (submitted kind status now attempt task w archives job db).objects
      ≡ false
unfolding submitted succeed
submitted-none_left kind status now attempt task w archives job db h =
    request_objects-none_left w.id now attempt archives _ h

after_create-LeavesNone :
    (now attempt : ℕ) (task : Task) (w : Wave) (archives : List ObjectRecord) (db : Db)
    (answer : Error ⊎ ℕ)
    → All (IsListed w.id archives) db.objects
    → LeavesNone w.id (after_create now attempt task w archives db answer)
unfolding after_create
after_create-LeavesNone now attempt task w archives db (inl e) h = tt
after_create-LeavesNone now attempt task w archives db (inr job) h =
    submitted-none_left EventKind.batch_restore_submitted JobStatus.preparing now attempt task w
      archives job db h

after_put-LeavesNone :
    (aws : Aws) (now attempt : ℕ) (task : Task) (w : Wave) (archives : List ObjectRecord) (db : Db)
    (answer : Option Error)
    → All (IsListed w.id archives) db.objects
    → LeavesNone w.id (after_put aws now attempt task w archives db answer)
unfolding after_put
after_put-LeavesNone aws now attempt task w archives db (some e) h = tt
after_put-LeavesNone aws now attempt task w archives db none h =
    after_create-LeavesNone now attempt task w archives db _ h

after_preflight-LeavesNone :
    (aws : Aws) (now : ℕ) (task : Task) (w : Wave) (s : Source) (archives : List ObjectRecord)
    (r : Option Error × Db)
    → All (IsListed w.id archives) r.1.objects
    → LeavesNone w.id (after_preflight aws now task w s archives r)
unfolding after_preflight
after_preflight-LeavesNone aws now task w s archives (some e, checked) h = tt
after_preflight-LeavesNone aws now task w s archives (none, checked) h =
    after_put-LeavesNone aws now _ task w archives _ (aws.put_manifest (manifest s.bucket archives))
      h

submit_to_aws-LeavesNone :
    (aws : Aws) (now : ℕ) (task : Task) (w : Wave) (s : Source) (archives : List ObjectRecord)
    (db : Db)
    → All (IsListed w.id archives) db.objects
    → LeavesNone w.id (submit_to_aws aws now task w s archives db)
unfolding submit_to_aws
submit_to_aws-LeavesNone aws now task w s archives db h = elim (Bool-cases aws.configured) [
  | inr no_ ↦ rw (no_, if◌then◌else◌) tt
  | inl set ↦
      rw (set, if◌then◌else◌)
        (after_preflight-LeavesNone aws now task w s archives (validate_restore_preflight aws s db)
          (subst (All (IsListed w.id archives))
            (sym (validate_restore_preflight-objects aws s db).0) h))
]

accept_simulated-LeavesNone :
    (failure : Option Error) (now attempt : ℕ) (task : Task) (w : Wave)
    (archives : List ObjectRecord) (job : ℕ) (status : JobStatus) (db : Db)
    → All (IsListed w.id archives) db.objects
    → LeavesNone w.id (accept_simulated failure now attempt task w archives job status db)
unfolding accept_simulated
accept_simulated-LeavesNone (some e) now attempt task w archives job status db h = tt
accept_simulated-LeavesNone none now attempt task w archives job status db h =
    submitted-none_left EventKind.simulated_batch_restore_submitted status now attempt task w
      archives job db h

after_submit-LeavesNone :
    (port : Simulator) (now attempt : ℕ) (task : Task) (w : Wave) (archives : List ObjectRecord)
    (db : Db) (answer : Error ⊎ (ℕ × JobStatus))
    → All (IsListed w.id archives) db.objects
    → LeavesNone w.id (after_submit port now attempt task w archives db answer)
unfolding after_submit
after_submit-LeavesNone port now attempt task w archives db (inl e) h = tt
after_submit-LeavesNone port now attempt task w archives db (inr (job, status)) h =
    accept_simulated-LeavesNone port.clock now attempt task w archives job status db h

if-LeavesNone :
    (wave : ℕ) (b : Bool) (s r : Step)
    → LeavesNone wave s
    → LeavesNone wave r
    → LeavesNone wave (if b then s else r)
if-LeavesNone wave true s r f g = f
if-LeavesNone wave false s r f g = g

submit_restore_simulated-LeavesNone :
    (port : Simulator) (now : ℕ) (task : Task) (w : Wave) (archives : List ObjectRecord) (db : Db)
    → All (IsListed w.id archives) db.objects
    → LeavesNone w.id (submit_restore_simulated port now task w archives db)
unfolding submit_restore_simulated
submit_restore_simulated-LeavesNone port now task w archives db h =
    let sent =
      after_submit port now db.next_id task w archives (open_attempt w (length archives) db)
        (port.submit w.id task.id) in
    if-LeavesNone w.id port.complete sent (Step.raised Error.runtime db)
      (after_submit-LeavesNone port now db.next_id task w archives
        (open_attempt w (length archives) db) (port.submit w.id task.id) h)
      tt

submit_somewhere-LeavesNone :
    (aws : Aws) (simulation : Option Simulator) (now : ℕ) (task : Task) (w : Wave) (s : Source)
    (archives : List ObjectRecord) (db : Db)
    → All (IsListed w.id archives) db.objects
    → LeavesNone w.id (submit_somewhere aws simulation now task w s archives db)
unfolding submit_somewhere
submit_somewhere-LeavesNone aws none now task w s archives db h =
    submit_to_aws-LeavesNone aws now task w s archives db h
submit_somewhere-LeavesNone aws (some port) now task w s archives db h =
    submit_restore_simulated-LeavesNone port now task w archives db h

skipped :
    (wave now : ℕ) (db : Db)
    → any (is_unsubmitted wave) (
        update_where
          (is_assigned_to wave)
          (λ o. record o { state = ObjectState.restored; restored_at = some now })
          db.objects)
      ≡ false
skipped wave now db = All-not_any (is_unsubmitted wave) _ (
    All-update_where_any {Q = λ o. is_unsubmitted wave o ≡ false} (is_assigned_to wave) _
      (λ o e. ground arith) (λ o e. ground arith) db.objects)

skip_restore-none_left :
    (reserve now : ℕ) (task : Task) (w : Wave) (db : Db)
    → any (is_unsubmitted w.id) (skip_restore reserve now task w db).objects ≡ false
unfolding skip_restore succeed
skip_restore-none_left reserve now task w db =
    let start = available_wave now w db in
    let admitted = (enqueue_available_transfer_objects reserve now w start).1 in
    let same : (ensure_transfer_task reserve w.source_id now now admitted).1.objects
        ≡ start.objects =
      ensure_transfer_task-objects reserve w.source_id now now admitted
      ∙ enqueue_available_transfer_objects-objects reserve now w start in
    rw same (skipped w.id now db)

submit_archives-LeavesNone :
    (aws : Aws) (reserve now : ℕ) (task : Task) (w : Wave) (s : Source) (db : Db)
    (archives : List ObjectRecord)
    → All (IsListed w.id archives) db.objects
    → LeavesNone w.id (submit_archives aws reserve now task w s db archives)
unfolding submit_archives
submit_archives-LeavesNone aws reserve now task w s db [] h =
    skip_restore-none_left reserve now task w db
submit_archives-LeavesNone aws reserve now task w s db (o ∷ os) h =
    submit_somewhere-LeavesNone aws aws.simulation now task w s (o ∷ os) db h

-- A submission that commits leaves no object of the wave behind: none is in an archive class
-- and still only assigned.
pub submit_restore-leaves_none :
    (aws : Aws) (reserve now : ℕ) (task : Task) (w : Wave) (s : Source) (db : Db) {after : Db}
    → submit_restore aws reserve now task w s db ≡ Step.done after
    → any (is_unsubmitted w.id) after.objects ≡ false
unfolding submit_restore
submit_restore-leaves_none aws reserve now task w s db done = subst (LeavesNone w.id) done (
    submit_archives-LeavesNone aws reserve now task w s db (archive_objects w.id db)
      (archive_objects-IsListed w.id db))

-- An accepted job has one more row that waits for its evidence for each object of its manifest.
pub submitted-awaits :
    (kind : EventKind) (status : JobStatus) (now attempt : ℕ) (task : Task) (w : Wave)
    (archives : List ObjectRecord) (job : ℕ) (db : Db)
    → count (awaits attempt) (submitted kind status now attempt task w archives job db).results
      ≡ count (awaits attempt) db.results + length archives
unfolding submitted succeed
submitted-awaits kind status now attempt task w archives job db =
    request_objects-awaits now attempt archives _
