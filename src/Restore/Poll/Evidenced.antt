-- ===== src/Restore/Poll/Evidenced.antt =====
-- Which objects a poll makes available.
use copy_s3_to_oci.Base.{
  ℕ, zero, suc, ◌≡◌, ◌⊎◌, inl, inr, refl, sym, ap, ◌∙◌, subst, holds, Bool, true, false, Option,
  none, some, List, [], ◌∷◌, ◌==◌, arith, any, select, if◌then◌else◌, Bool-cases, Option-cases,
  is_some, All, Pairs, Pairs-update_where,
}
use copy_s3_to_oci.Schema.{
  ObjectRecord, ObjectState, Wave, Task, RestoreAttempt, Db, JobStatus, is_restored, is_lost_job,
  is_complete_job, get_object,
}
use copy_s3_to_oci.Tasks.Worker.{retry}
use copy_s3_to_oci.Worker.Errors.{Error}
use copy_s3_to_oci.Waves.Reapproval.{restore_reapproval_is_required, finish_superseded_restore_poll}
use copy_s3_to_oci.Restore.Core.{
  is_archive, in_wave, is_awaited, fail_restore_attempt, restore_attempt_for_job,
}
use copy_s3_to_oci.Restore.Submit.{db_of}
use copy_s3_to_oci.Restore.Heads.{
  Head, Scan, fresh_scan, is_ready_object, expiry_in, is_checkpointed, to_restored, after_head,
  rest_of_batch, persist_poll_progress, restored_pending_archives_from_head,
}
use copy_s3_to_oci.Restore.Poll.{
  Aws, Evidence, poll_restore, batch_evidence, poll_availability, reconciled, reconcile_objects,
  settle, note_error, has_answer, is_releasable, is_started, is_pending_in, judge_report, judge_job,
  judge_attempt, judge_batch, after_evidence, accept_job, is_acceptable, with_progress,
  with_job_status, has_evidence,
}
use copy_s3_to_oci.Restore.Poll.Keeps.{
  poll_again-objects, finish_poll-objects, import_completion_report-objects,
  fail_restore_attempt-objects, restore_attempt_for_job-objects,
}
use copy_s3_to_oci.Restore.Report.{
  action_required, restore_result_diagnostics, import_completion_report,
}

-- HeadObject, asked for the key and the version of the row, an archived object of the wave, said that
-- its restore is finished, with this expiry.
abbrev pub IsAnswered : (List ℕ → Option ℕ → Head) → ℕ → ObjectRecord → Option ℕ → Type 0
IsAnswered head wave o expiry =
    (in_wave wave o ≡ true)
    × (is_archive o.storage_class ≡ true)
    × (head o.object_key o.version_id ≡ Head.restored expiry)

-- A row of the objects `xs` before and after: it is the same object, and available only if it was, or
-- needs no restore, or was answered.
pub record IsEvidenced (head : List ℕ → Option ℕ → Head) (wave : ℕ) (xs : List ObjectRecord)
    (o p : ObjectRecord) : Type 0 where
  pub row : get_object o.id xs ≡ some o
  pub same_id : p.id ≡ o.id
  pub same_wave : p.wave_id ≡ o.wave_id
  pub same_class : p.storage_class ≡ o.storage_class
  pub same_key : p.object_key ≡ o.object_key
  pub same_version : p.version_id ≡ o.version_id
  pub evidence :
      is_restored p.state ≡ true
      → (is_restored o.state ≡ true)
        ⊎ ((is_archive o.storage_class ≡ false) ⊎ IsAnswered head wave o p.restore_expires_at)

module _ (head : List ℕ → Option ℕ → Head) (wave : ℕ) (xs : List ObjectRecord) where
  abbrev R : ObjectRecord → ObjectRecord → Type 0
  R = IsEvidenced head wave xs

  -- An answer is kept under the id of the row that it is about.
  abbrev IsKnown : ℕ → Option ℕ → Type 0
  IsKnown key expiry =
      (x : ObjectRecord) × (get_object key xs ≡ some x) × IsAnswered head wave x expiry

  abbrev ReadyOk : List (ℕ × Option ℕ) → Type 0
  ReadyOk ready = All (λ r. IsKnown r.0 r.1) ready

  -- An awaited row that is still the object of a row of `xs`.
  abbrev IsScanned : ObjectRecord → Type 0
  IsScanned y = (is_awaited wave y ≡ true) × ((x : ObjectRecord) × R x y)

  answered :
      (ready : List (ℕ × Option ℕ)) (o : ObjectRecord)
      → ReadyOk ready
      → is_ready_object ready o ≡ true
      → IsKnown o.id (expiry_in ready o.id)
  answered [] o h e = cc
  answered ((id, x) ∷ rs) o h e = elim (Bool-cases (id == o.id)) [
    | inl same ↦
        let one : id ≡ o.id = ground arith in
        rw (same, expiry_in) (subst (λ k. IsKnown k x) one h.0)
    | inr other ↦ rw (other, expiry_in) (answered rs o h.1 (ground arith))
  ]

  same_object :
      (key : ℕ) {x y : ObjectRecord}
      → get_object key xs ≡ some x
      → get_object key xs ≡ some y
      → x ≡ y
  same_object key e f = cc

  own_answer :
      (ready : List (ℕ × Option ℕ)) (x y : ObjectRecord)
      → ReadyOk ready
      → R x y
      → is_ready_object ready y ≡ true
      → IsAnswered head wave x (expiry_in ready y.id)
  own_answer ready x y ok h e =
      let (known, row, answer) = answered ready y ok e in
      let same = same_object x.id (ap (λ k. get_object k xs) (sym h.same_id) ∙ row) h.row in
      subst (λ o. IsAnswered head wave o (expiry_in ready y.id)) same answer

  noted_answer :
      (y : ObjectRecord) (expiry : Option ℕ)
      → head y.object_key y.version_id ≡ Head.restored expiry
      → IsScanned y
      → IsKnown y.id expiry
  noted_answer y expiry e (awaited, (x, h)) = (
    x,
    ap (λ k. get_object k xs) h.same_id ∙ h.row,
    (
      ap (λ k. holds k wave) (sym h.same_wave) ∙ ground arith,
      ap is_archive (sym h.same_class) ∙ ground arith,
      ap (λ k. head k x.version_id) (sym h.same_key)
          ∙ ap (head y.object_key) (sym h.same_version)
          ∙ e,
    ),
  )

  rows_of : (os ys : List ObjectRecord) → Pairs R os ys → All (λ y. (x : ObjectRecord) × R x y) ys
  rows_of [] [] h = tt
  rows_of [] (y ∷ ys) h = absurd h
  rows_of (o ∷ os) [] h = absurd h
  rows_of (o ∷ os) (y ∷ ys) h = ((o, h.0), rows_of os ys h.1)

  select-IsScanned :
      (ys : List ObjectRecord)
      → All (λ y. (x : ObjectRecord) × R x y) ys
      → All IsScanned (select (is_awaited wave) ys)
  select-IsScanned [] h = tt
  select-IsScanned (y ∷ ys) h = elim (Bool-cases (is_awaited wave y)) [
    | inl e ↦ rw (e, select) ((e, h.0), select-IsScanned ys h.1)
    | inr e ↦ rw (e, select) (select-IsScanned ys h.1)
  ]

  restored_by_answer :
      (ready : List (ℕ × Option ℕ)) (now : ℕ) (x y : ObjectRecord)
      → ReadyOk ready
      → R x y
      → is_checkpointed wave ready y ≡ true
      → R x (to_restored ready now y)
  restored_by_answer ready now x y ok h e = record {
    row = h.row;
    same_id = h.same_id;
    same_wave = h.same_wave;
    same_class = h.same_class;
    same_key = h.same_key;
    same_version = h.same_version;
    evidence = λ _. inr (inr (own_answer ready x y ok h (ground arith)));
  }

  persist-IsEvidenced :
      (elapsed : ℕ → ℕ) (now : ℕ) (ready : List (ℕ × Option ℕ)) (s : Scan) (db : Db)
      → ReadyOk ready
      → Pairs R xs db.objects
      → Pairs R xs (persist_poll_progress elapsed wave now ready s db).1.objects
  unfolding persist_poll_progress
  persist-IsEvidenced elapsed now ready s db ok h =
      Pairs-update_where R (is_checkpointed wave ready) (to_restored ready now)
        (λ x y r e. restored_by_answer ready now x y ok r e) xs db.objects h

  -- What the loop over the requests keeps.
  abbrev IsFine : Scan × Db → Type 0
  IsFine r = ReadyOk r.0.ready × Pairs R xs r.1.objects

  after_head-IsFine :
      (answer : Head) (o : ObjectRecord) (s : Scan) (db : Db) (go : Scan → Db → Scan × Db)
      → head o.object_key o.version_id ≡ answer
      → IsScanned o
      → ((t : Scan) (d : Db) → ReadyOk t.ready → Pairs R xs d.objects → IsFine (go t d))
      → ReadyOk s.ready
      → Pairs R xs db.objects
      → IsFine (after_head answer o.id s db go)
  after_head-IsFine (Head.restored x) o s db go e w k ok h = k _ db (noted_answer o x e w, ok) h
  after_head-IsFine Head.waiting o s db go e w k ok h = k _ db ok h
  after_head-IsFine (Head.refused x) o s db go e w k ok h = (ok, h)

  heads-IsFine :
      (elapsed : ℕ → ℕ) (now : ℕ) (os : List ObjectRecord) (left : ℕ) (s : Scan) (db : Db)
      → All IsScanned os
      → ReadyOk s.ready
      → Pairs R xs db.objects
      → IsFine (restored_pending_archives_from_head head elapsed wave now os left s db)
  unfolding restored_pending_archives_from_head persist_poll_progress
  heads-IsFine elapsed now [] left s db w ok h =
      (ok, persist-IsEvidenced elapsed now s.ready s db ok h)
  heads-IsFine elapsed now (o ∷ os) zero s db w ok h =
      after_head-IsFine (head o.object_key o.version_id) o _ _ _ refl w.0
        (λ t d ok' h'. heads-IsFine elapsed now os rest_of_batch t d w.1 ok' h') ok
        (persist-IsEvidenced elapsed now s.ready s db ok h)
  heads-IsFine elapsed now (o ∷ os) (suc left) s db w ok h =
      after_head-IsFine (head o.object_key o.version_id) o _ _ _ refl w.0
        (λ t d ok' h'. heads-IsFine elapsed now os left t d w.1 ok' h') ok h

  reconciled-IsEvidenced :
      (ready : List (ℕ × Option ℕ)) (now : ℕ) (x y : ObjectRecord)
      → ReadyOk ready
      → R x y
      → R x (reconciled ready now y)
  reconciled-IsEvidenced ready now x y ok h = elim (Bool-cases (has_answer ready y)) [
    | inl e ↦ elim (Bool-cases (is_releasable y.state)) [
      | inl f ↦ elim (Bool-cases (is_archive y.storage_class)) [
        | inl g ↦
            rw (e, f, g, if◌then◌else◌)
              (record {
                row = h.row;
                same_id = h.same_id;
                same_wave = h.same_wave;
                same_class = h.same_class;
                same_key = h.same_key;
                same_version = h.same_version;
                evidence = λ _. inr (inr (own_answer ready x y ok h (ground arith)));
              })
        | inr g ↦
            rw (e, f, g, if◌then◌else◌)
              (record {
                row = h.row;
                same_id = h.same_id;
                same_wave = h.same_wave;
                same_class = h.same_class;
                same_key = h.same_key;
                same_version = h.same_version;
                evidence = λ _. inr (inl (ap is_archive (sym h.same_class) ∙ g));
              })
      ]
      | inr f ↦ rw (e, f, if◌then◌else◌) h
    ]
    | inr e ↦ elim (Bool-cases (is_started y.state)) [
      | inl f ↦
          rw (e, f, if◌then◌else◌)
            (record {
              row = h.row;
              same_id = h.same_id;
              same_wave = h.same_wave;
              same_class = h.same_class;
              same_key = h.same_key;
              same_version = h.same_version;
              evidence = λ bad. cc bad;
            })
      | inr f ↦ rw (e, f, if◌then◌else◌) h
    ]
  ]

  reconcile_objects-IsEvidenced :
      (ready : List (ℕ × Option ℕ)) (now : ℕ) (db : Db)
      → ReadyOk ready
      → Pairs R xs db.objects
      → Pairs R xs (reconcile_objects wave ready now db).objects
  unfolding reconcile_objects
  reconcile_objects-IsEvidenced ready now db ok h =
      Pairs-update_where R (in_wave wave) (reconciled ready now)
        (λ x y r e. reconciled-IsEvidenced ready now x y ok r) xs db.objects h

  kept : (before after : List ObjectRecord) → after ≡ before → Pairs R xs before → Pairs R xs after
  kept before after e h = subst (Pairs R xs) (sym e) h

abbrev HasEvidence : Aws → ℕ → List ObjectRecord → Db → Type 0
HasEvidence aws wave xs db = Pairs (IsEvidenced aws.head wave xs) xs db.objects

module _ (aws : Aws) (legacy message reserve now : ℕ) (task : Task) (w : Wave)
    (xs : List ObjectRecord) where
  settle-HasEvidence :
      (s : Scan) (db : Db)
      → ReadyOk aws.head w.id xs s.ready
      → HasEvidence aws w.id xs db
      → HasEvidence aws w.id xs (db_of (settle legacy message reserve now task w (s, db)))
  settle-HasEvidence s db ok h = elim (Option-cases s.error) [
    | inr (e, raised) ↦ rw raised h
    | inl fine ↦
        let next = reconcile_objects w.id s.ready now db in
        let good = reconcile_objects-IsEvidenced aws.head w.id xs s.ready now db ok h in
        elim (Bool-cases (any (is_pending_in w.id) next.objects)) [
          | inl more ↦
              rw (fine, more, if◌then◌else◌)
                (kept aws.head w.id xs _ _
                  (poll_again-objects legacy message reserve now task w next) good)
          | inr done ↦
              rw (fine, done, if◌then◌else◌)
                (kept aws.head w.id xs _ _ (finish_poll-objects reserve now task w next) good)
        ]
  ]

  note_error-IsFine :
      (s : Scan) (db : Db)
      → IsFine aws.head w.id xs (s, db)
      → IsFine aws.head w.id xs (note_error aws w.id now (s, db))
  unfolding persist_poll_progress
  note_error-IsFine s db h = elim (Bool-cases (is_some s.error)) [
    | inl e ↦
        rw (e, if◌then◌else◌)
          (h.0, persist-IsEvidenced aws.head w.id xs aws.elapsed now [] s db tt h.1)
    | inr e ↦ rw (e, if◌then◌else◌) h
  ]

  poll_availability-HasEvidence :
      (db : Db)
      → HasEvidence aws w.id xs db
      → HasEvidence aws w.id xs (db_of (poll_availability aws legacy message reserve now task w db))
  unfolding poll_availability
  poll_availability-HasEvidence db h =
      let scanned =
        restored_pending_archives_from_head aws.head aws.elapsed w.id now
          (select (is_awaited w.id) db.objects) 1000 fresh_scan db in
      let fine : IsFine aws.head w.id xs scanned =
        heads-IsFine aws.head w.id xs aws.elapsed now (select (is_awaited w.id) db.objects) 1000
          fresh_scan db
          (select-IsScanned aws.head w.id xs db.objects (rows_of aws.head w.id xs xs db.objects h))
          tt h in
      let noted_ = note_error-IsFine scanned.0 scanned.1 fine in
      let ended = note_error aws w.id now scanned in
      settle-HasEvidence ended.0 ended.1 noted_.0 noted_.1

  accept_job-HasEvidence :
      (a : RestoreAttempt) (db : Db)
      → HasEvidence aws w.id xs db
      → HasEvidence aws w.id xs (accept_job now w a db)
  unfolding accept_job
  accept_job-HasEvidence a db h =
      Pairs-update_where (IsEvidenced aws.head w.id xs) (is_acceptable w.id)
        (λ o. record o { state = ObjectState.restore_request_accepted })
        (λ x y r e. record {
          row = r.row;
          same_id = r.same_id;
          same_wave = r.same_wave;
          same_class = r.same_class;
          same_key = r.same_key;
          same_version = r.same_version;
          evidence = λ bad. cc bad;
        })
        xs db.objects h

  abbrev HasEvidenceSo : Evidence → Type 0
  HasEvidenceSo (Evidence.continue db) = HasEvidence aws w.id xs db
  HasEvidenceSo (Evidence.stopped db) = HasEvidence aws w.id xs db
  HasEvidenceSo (Evidence.crashed e db) = HasEvidence aws w.id xs db

  fail_restore_attempt-HasEvidence :
      (a : RestoreAttempt) (db : Db)
      → HasEvidence aws w.id xs db
      → HasEvidence aws w.id xs (fail_restore_attempt message now task w a db)
  fail_restore_attempt-HasEvidence a db h =
      kept aws.head w.id xs _ _ (fail_restore_attempt-objects message now task w a db) h

  judge_report-HasEvidence :
      (status : JobStatus) (a : RestoreAttempt) (published : Bool) (db : Db)
      → HasEvidence aws w.id xs db
      → HasEvidenceSo (judge_report message now status task w a (published, db))
  unfolding retry
  judge_report-HasEvidence status a false db h = h
  judge_report-HasEvidence status a true db h =
      elim (Bool-cases (action_required (restore_result_diagnostics a.id db))) [
        | inl bad ↦ rw (bad, if◌then◌else◌) (fail_restore_attempt-HasEvidence _ db h)
        | inr good ↦ rw (good, if◌then◌else◌) (accept_job-HasEvidence a db h)
      ]

  judge_job-HasEvidence :
      (a : RestoreAttempt) (db : Db) (answer : Error ⊎ (JobStatus × ℕ × ℕ))
      → HasEvidence aws w.id xs db
      → HasEvidenceSo (judge_job aws message now task w a db answer)
  unfolding retry
  judge_job-HasEvidence a db (inl e) h = h
  judge_job-HasEvidence a db (inr (status, good, bad)) h =
      elim (Bool-cases (is_complete_job status)) [
        | inr open_ ↦ elim (Bool-cases (is_lost_job status)) [
          | inl lost ↦ rw (open_, lost, if◌then◌else◌) (fail_restore_attempt-HasEvidence _ _ h)
          | inr busy ↦ rw (open_, busy, if◌then◌else◌) h
        ]
        | inl done ↦ elim (Option-cases (aws.report a.id)) [
          | inl absent ↦ rw (done, absent, if◌then◌else◌) h
          | inr (p, found) ↦
              let counted = with_progress a.id good bad (with_job_status w.id a.id status db) in
              rw (done, found, if◌then◌else◌)
                (judge_report-HasEvidence status a
                  (import_completion_report a.id (select (in_wave w.id) counted.objects) p
                    counted).0
                  (import_completion_report a.id (select (in_wave w.id) counted.objects) p
                    counted).1
                  (kept aws.head w.id xs _ _
                    (import_completion_report-objects a.id (select (in_wave w.id) counted.objects) p
                      counted)
                    h))
        ]
      ]

  judge_attempt-HasEvidence :
      (job : ℕ) (a : RestoreAttempt) (known : Db)
      → HasEvidence aws w.id xs known
      → HasEvidenceSo (judge_attempt aws message now task w job (a, known))
  judge_attempt-HasEvidence job a known h = elim (Bool-cases (has_evidence a)) [
    | inl e ↦ rw (e, if◌then◌else◌) h
    | inr e ↦ rw (e, if◌then◌else◌) (judge_job-HasEvidence a _ (aws.describe job) h)
  ]

  judge_batch-HasEvidence :
      (db : Db) (job : Option ℕ)
      → HasEvidence aws w.id xs db
      → HasEvidenceSo (judge_batch aws legacy message now task w db job)
  judge_batch-HasEvidence db none h = h
  judge_batch-HasEvidence db (some job) h =
      judge_attempt-HasEvidence job (restore_attempt_for_job legacy w db).0
        (restore_attempt_for_job legacy w db).1
        (kept aws.head w.id xs _ _ (restore_attempt_for_job-objects legacy w db) h)

  after_evidence-HasEvidence :
      (e : Evidence)
      → HasEvidenceSo e
      → HasEvidence aws w.id xs (db_of (after_evidence aws legacy message reserve now task w e))
  unfolding after_evidence poll_availability
  after_evidence-HasEvidence (Evidence.continue db) h = poll_availability-HasEvidence db h
  after_evidence-HasEvidence (Evidence.stopped db) h = h
  after_evidence-HasEvidence (Evidence.crashed e db) h = h

own_rows :
    (head : List ℕ → Option ℕ → Head) (wave : ℕ) (xs os : List ObjectRecord)
    → All (λ o. get_object o.id xs ≡ some o) os
    → Pairs (IsEvidenced head wave xs) os os
own_rows head wave xs [] h = tt
own_rows head wave xs (o ∷ os) h = (
  record {
    row = h.0;
    same_id = refl;
    same_wave = refl;
    same_class = refl;
    same_key = refl;
    same_version = refl;
    evidence = λ e. inl e;
  },
  own_rows head wave xs os h.1,
)

-- Where the ids of the objects are unique, a poll makes no object available without evidence:
-- row by row, the objects after a poll, however it ends, keep their id, wave, storage class,
-- key and version, and one that is RESTORED was so before, or is in no archive class, or is an
-- archived object of the wave of which HeadObject, asked for this row's own key and version,
-- said in this poll that the restore is finished, with the expiry that the row then has.
pub poll_restore-IsEvidenced :
    (aws : Aws) (legacy message reserve now : ℕ) (task : Task) (w : Wave) (db : Db)
    → All (λ o. get_object o.id db.objects ≡ some o) db.objects
    → Pairs
        (IsEvidenced aws.head w.id db.objects)
        db.objects
        (db_of (poll_restore aws legacy message reserve now task w db)).objects
unfolding poll_restore batch_evidence finish_superseded_restore_poll
poll_restore-IsEvidenced aws legacy message reserve now task w db own =
    let same : HasEvidence aws w.id db.objects db =
      own_rows aws.head w.id db.objects db.objects own in
    elim (Bool-cases (restore_reapproval_is_required w)) [
      | inl gated ↦ rw (gated, if◌then◌else◌) same
      | inr open_ ↦
          rw (open_, if◌then◌else◌)
            (after_evidence-HasEvidence aws legacy message reserve now task w db.objects
              (batch_evidence aws legacy message now task w db)
              (judge_batch-HasEvidence aws legacy message reserve now task w db.objects db
                w.batch_job_id same))
    ]
