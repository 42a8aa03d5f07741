-- ===== src/Restore/Submit/Refused.antt =====
-- What a submission raises, and what it has written then.
use copy_s3_to_oci.Base.{
  ℕ, ◌≡◌, ◌⊎◌, inl, inr, refl, Bool, true, false, Option, none, some, List, [], ◌∷◌, length,
  if◌then◌else◌, subst,
}
use copy_s3_to_oci.Schema.{Task, Wave, Source, ObjectRecord, ReportRow, JobStatus, Db}
use copy_s3_to_oci.Worker.Errors.{Error, Disposition, classify_task_error}
use copy_s3_to_oci.Restore.Core.{archive_objects}
use copy_s3_to_oci.Restore.Submit.{
  Step, Aws, Simulator, wrapped, open_attempt, manifest, validate_restore_preflight, after_create,
  after_put, after_preflight, submit_to_aws, accept_simulated, after_submit,
  submit_restore_simulated, submit_somewhere, submit_archives, submit_restore,
}
use copy_s3_to_oci.Restore.Submit.Complete.{validate_restore_preflight-objects}

-- An error of a submission to the simulator: the source is incomplete, or the simulator's own error.
abbrev pub IsPortError : Simulator → ℕ → ℕ → Error → Type 0
IsPortError port wave task e =
    ((port.complete ≡ false) × (e ≡ Error.runtime))
    ⊎ ((port.submit wave task ≡ inl e) ⊎ (port.clock ≡ some e))

-- What the session holds when a submission raises.
pub record IsRefused (aws : Aws) (task : Task) (w : Wave) (db : Db) (e : Error) (after : Db)
    : Type 0 where
  pub cause :
      ((aws.simulation ≡ none) × (classify_task_error e ≡ Disposition.failed))
      ⊎ ((port : Simulator) × (aws.simulation ≡ some port) × IsPortError port w.id task.id e)
  pub objects : after.objects ≡ db.objects
  pub results : after.results ≡ db.results

-- Whatever a step raises is one of these errors, with these objects and these outcomes.
module _ (E : Error → Type 0) (os : List ObjectRecord) (rs : List ReportRow) where
  abbrev Raises : Step → Type 0
  Raises (Step.done db) = Unit
  Raises (Step.raised e db) = E e × (db.objects ≡ os) × (db.results ≡ rs)

  if-Raises :
      (b : Bool) (s r : Step)
      → (b ≡ true → Raises s)
      → (b ≡ false → Raises r)
      → Raises (if b then s else r)
  if-Raises true s r f g = f refl
  if-Raises false s r f g = g refl

-- Submissions to AWS.
module _ (os : List ObjectRecord) (rs : List ReportRow) where
  abbrev Fails : Step → Type 0
  Fails = Raises (λ e. classify_task_error e ≡ Disposition.failed) os rs

  failed : (e : Error) → classify_task_error (wrapped e) ≡ Disposition.failed
  unfolding classify_task_error
  failed e = refl

  after_create-Fails :
      (now attempt : ℕ) (task : Task) (w : Wave) (archives : List ObjectRecord) (db : Db)
      (answer : Error ⊎ ℕ)
      → db.objects ≡ os
      → db.results ≡ rs
      → Fails (after_create now attempt task w archives db answer)
  unfolding after_create
  after_create-Fails now attempt task w archives db (inl e) o r = (failed e, o, r)
  after_create-Fails now attempt task w archives db (inr job) o r = tt

  after_put-Fails :
      (aws : Aws) (now attempt : ℕ) (task : Task) (w : Wave) (archives : List ObjectRecord)
      (db : Db) (answer : Option Error)
      → db.objects ≡ os
      → db.results ≡ rs
      → Fails (after_put aws now attempt task w archives db answer)
  unfolding after_put
  after_put-Fails aws now attempt task w archives db (some e) o r = (failed e, o, r)
  after_put-Fails aws now attempt task w archives db none o r =
      after_create-Fails now attempt task w archives db _ o r

  after_preflight-Fails :
      (aws : Aws) (now : ℕ) (task : Task) (w : Wave) (s : Source) (archives : List ObjectRecord)
      (r : Option Error × Db)
      → r.1.objects ≡ os
      → r.1.results ≡ rs
      → Fails (after_preflight aws now task w s archives r)
  unfolding after_preflight
  after_preflight-Fails aws now task w s archives (some e, checked) o r = (failed e, o, r)
  after_preflight-Fails aws now task w s archives (none, checked) o r =
      after_put-Fails aws now _ task w archives _ (aws.put_manifest (manifest s.bucket archives)) o
        r

submit_to_aws-Fails :
    (aws : Aws) (now : ℕ) (task : Task) (w : Wave) (s : Source) (archives : List ObjectRecord)
    (db : Db)
    → Fails db.objects db.results (submit_to_aws aws now task w s archives db)
unfolding submit_to_aws
submit_to_aws-Fails aws now task w s archives db =
    let checked = validate_restore_preflight-objects aws s db in
    if-Raises (λ e. classify_task_error e ≡ Disposition.failed) db.objects db.results aws.configured
      _ _
      (λ _.
        after_preflight-Fails db.objects db.results aws now task w s archives
          (validate_restore_preflight aws s db) checked.0 checked.1)
      (λ _. (failed db.objects db.results Error.runtime, refl, refl))

-- Submissions to the simulator.
module _ (port : Simulator) (now : ℕ) (task : Task) (w : Wave) (archives : List ObjectRecord)
    (db : Db) where
  abbrev PassesOn : Step → Type 0
  PassesOn = Raises (IsPortError port w.id task.id) db.objects db.results

  after_submit-PassesOn :
      (attempt : ℕ) (answer : Error ⊎ (ℕ × JobStatus)) (clock : Option Error)
      → port.submit w.id task.id ≡ answer
      → port.clock ≡ clock
      → PassesOn (
          after_submit port now attempt task w archives
            (open_attempt w (length archives) db)
            answer)
  unfolding after_submit accept_simulated
  after_submit-PassesOn attempt (inl e) clock said at = (inr (inl said), refl, refl)
  after_submit-PassesOn attempt (inr (job, status)) none said at = rw at tt
  after_submit-PassesOn attempt (inr (job, status)) (some e) said at =
      rw at (inr (inr refl), refl, refl)

  submit_restore_simulated-PassesOn :
      PassesOn (submit_restore_simulated port now task w archives db)
  unfolding submit_restore_simulated
  submit_restore_simulated-PassesOn =
      if-Raises (IsPortError port w.id task.id) db.objects db.results port.complete _ _
        (λ _. after_submit-PassesOn db.next_id (port.submit w.id task.id) port.clock refl refl)
        (λ missing. (inl (missing, refl), refl, refl))

module _ (aws : Aws) (reserve now : ℕ) (task : Task) (w : Wave) (s : Source) (db : Db) where
  abbrev IsRefusedIn : Step → Type 0
  IsRefusedIn (Step.done after) = Unit
  IsRefusedIn (Step.raised e after) = IsRefused aws task w db e after

  refused_by :
      (E : Error → Type 0) (step : Step)
      → ((e : Error)
          → E e
          → ((aws.simulation ≡ none) × (classify_task_error e ≡ Disposition.failed))
            ⊎ ((port : Simulator) × (aws.simulation ≡ some port) × IsPortError port w.id task.id e))
      → Raises E db.objects db.results step
      → IsRefusedIn step
  refused_by E (Step.done after) f h = tt
  refused_by E (Step.raised e after) f h = record { cause = f e h.0; objects = h.1; results = h.2 }

  submit_somewhere-IsRefusedIn :
      (simulation : Option Simulator) (archives : List ObjectRecord)
      → aws.simulation ≡ simulation
      → IsRefusedIn (submit_somewhere aws simulation now task w s archives db)
  unfolding submit_somewhere
  submit_somewhere-IsRefusedIn none archives here =
      refused_by (λ e. classify_task_error e ≡ Disposition.failed) _ (λ e h. inl (here, h))
        (submit_to_aws-Fails aws now task w s archives db)
  submit_somewhere-IsRefusedIn (some port) archives here =
      refused_by (IsPortError port w.id task.id) _ (λ e h. inr (port, here, h))
        (submit_restore_simulated-PassesOn port now task w archives db)

  submit_archives-IsRefusedIn :
      (archives : List ObjectRecord)
      → IsRefusedIn (submit_archives aws reserve now task w s db archives)
  unfolding submit_archives
  submit_archives-IsRefusedIn [] = tt
  submit_archives-IsRefusedIn (o ∷ os) = submit_somewhere-IsRefusedIn aws.simulation (o ∷ os) refl

-- A submission that raises has requested no object and has written no outcome row, and what it
-- raises is, outside a simulation, classified as a permanent failure, whatever error AWS gave,
-- a throttled request included; in a simulation it is the error that the simulator's port or
-- its clock gave, as it is, or that of a source without an execution context.
pub submit_restore-IsRefused :
    (aws : Aws) (reserve now : ℕ) (task : Task) (w : Wave) (s : Source) (db : Db) {e : Error}
    {after : Db}
    → submit_restore aws reserve now task w s db ≡ Step.raised e after
    → IsRefused aws task w db e after
unfolding submit_restore
submit_restore-IsRefused aws reserve now task w s db raised =
    subst (IsRefusedIn aws reserve now task w s db) raised
      (submit_archives-IsRefusedIn aws reserve now task w s db (archive_objects w.id db))
