-- ===== src/Waves/Lifecycle/Reprocess.antt =====
-- What a reprocess refuses, and the state that it leaves for the new restore.
use copy_s3_to_oci.Base.{
  ℕ, ◌≡◌, refl, sym, ap, ◌∙◌, subst, Bool, true, false, ◌&&◌, not, Option, none, some, List, [],
  ◌∷◌, ◌++◌, ◌==◌, arith, All, All-update_where_any, select, update_where, any, holds, ◌⊎◌,
}
use copy_s3_to_oci.Http.{ok}
use copy_s3_to_oci.Schema.{
  Task, TaskKind, QueueItem, Wave, ObjectRecord, Db, get_wave, is_delivered, is_paused, is_reset,
  new_task,
}
use copy_s3_to_oci.Waves.Cancel.{active_of}
use copy_s3_to_oci.Waves.Cancel.Pause.{set_wave-hit}
use copy_s3_to_oci.Waves.Lifecycle.{
  reprocess_wave, reprocessed, reset_wave, reset_object, to_reset, keep_attempt,
}

-- A reprocess goes through only where the wave may start a new restore.
pub reprocess_wave-ok :
    (key note now : ℕ) (approved : Bool) (db after : Db)
    → reprocess_wave key approved note now db ≡ ok after
    → (w : Wave) × (get_wave key db.waves ≡ some w)
      × ((w.restore_reapproval_required ≡ false) ⊎ (approved ≡ true))
      × (is_paused w.status ≡ false)
      × (any (active_of key) db.tasks ≡ false)
      × (after ≡ reprocessed note now w db)
unfolding reprocess_wave
reprocess_wave-ok key note now approved db after h = ground arith

get_wave-id : (key : ℕ) (ws : List Wave) {w : Wave} → get_wave key ws ≡ some w → w.id ≡ key
get_wave-id key [] e = cc
get_wave-id key (v ∷ ws) {w} e = ground (arith, get_wave-id key ws {w = w})

-- The wave is ready for one new restore, and evidence of delivery is untouched.
pub record IsRestarted (note now : ℕ) (w : Wave) (db after : Db) : Type 0 where
  pub wave : get_wave w.id after.waves ≡ some (reset_wave w)
  pub task :
      select (active_of w.id) after.tasks
      ≡ new_task
          (keep_attempt note w w.batch_job_id db).next_id
          w.id
          TaskKind.submit_batch_restore
          now
        ∷ []
  pub items : All (λ i. (i.wave_id == w.id) ≡ false) after.items
  pub objects : All (λ o. holds o.wave_id w.id && is_reset o.state ≡ false) after.objects
  pub delivered :
      select (λ o. is_delivered o.state) after.objects
      ≡ select (λ o. is_delivered o.state) db.objects

-- The rows of the earlier attempts change nothing but the attempts.
keep_attempt-fields :
    (note : ℕ) (w : Wave) (job : Option ℕ) (db : Db)
    → let kept = keep_attempt note w job db in
      (kept.tasks ≡ db.tasks)
      × (kept.items ≡ db.items)
      × (kept.objects ≡ db.objects)
      × (kept.waves ≡ db.waves)
keep_attempt-fields note w none db = (refl, refl, refl, refl)
keep_attempt-fields note w (some job) db = ground arith

added_task :
    (key now n : ℕ) (ts : List Task)
    → any (active_of key) ts ≡ false
    → select (active_of key) (ts ++ new_task n key TaskKind.submit_batch_restore now ∷ [])
      ≡ new_task n key TaskKind.submit_batch_restore now ∷ []
added_task key now n [] h = ground arith
added_task key now n (t ∷ ts) h = ground (arith, added_task key now n ts)

delivered_lem :
    (key : ℕ) (os : List ObjectRecord)
    → select (λ o. is_delivered o.state) (update_where (to_reset key) reset_object os)
      ≡ select (λ o. is_delivered o.state) os
delivered_lem key [] = refl
delivered_lem key (o ∷ os) = ground (arith, delivered_lem key os)

not-select :
    (key : ℕ) (is : List QueueItem)
    → All (λ i. (i.wave_id == key) ≡ false) (select (λ i. not (i.wave_id == key)) is)
not-select key [] = tt
not-select key (i ∷ is) = ground (arith, not-select key is)

reprocessed-IsRestarted :
    (note now : ℕ) (w : Wave) (db : Db)
    → get_wave w.id db.waves ≡ some w
    → any (active_of w.id) db.tasks ≡ false
    → IsRestarted note now w db (reprocessed note now w db)
reprocessed-IsRestarted note now w db e idle =
    let kept = keep_attempt note w w.batch_job_id db in
    let (tasks, items, objects, waves) = keep_attempt-fields note w w.batch_job_id db in
    record {
      wave = set_wave-hit w.id reset_wave kept.waves (λ v. refl) (ap (get_wave w.id) waves ∙ e);
      task = added_task w.id now kept.next_id kept.tasks (ap (any (active_of w.id)) tasks ∙ idle);
      items = not-select w.id kept.items;
      objects =
          All-update_where_any (to_reset w.id) reset_object (λ o h. ground arith) (λ o h. h)
            kept.objects;
      delivered = delivered_lem w.id kept.objects ∙ ap (select (λ o. is_delivered o.state)) objects;
    }

-- A reprocessing that is accepted found the wave not paused, without an active task, and
-- approved if approval is required; after it the wave is ready for restore with its restore
-- fields cleared, has exactly one active task, which submits a restore, has no items in the
-- lane, and has no object left in a restore or transfer state, while delivered objects are as
-- before.
pub reprocess_wave-IsRestarted :
    (key note now : ℕ) (approved : Bool) (db after : Db)
    → reprocess_wave key approved note now db ≡ ok after
    → (w : Wave) × (get_wave key db.waves ≡ some w)
      × ((w.restore_reapproval_required ≡ false) ⊎ (approved ≡ true))
      × (is_paused w.status ≡ false)
      × (any (active_of key) db.tasks ≡ false)
      × IsRestarted note now w db after
reprocess_wave-IsRestarted key note now approved db after h =
    let (w, e, approval, runs, idle, same) = reprocess_wave-ok key note now approved db after h in
    let named : w.id ≡ key = get_wave-id key db.waves e in
    (
      w,
      e,
      approval,
      runs,
      idle,
      subst (IsRestarted note now w db) (sym same) (
          reprocessed-IsRestarted note now w db
            (subst (λ k. get_wave k db.waves ≡ some w) (sym named) e)
            (subst (λ k. any (active_of k) db.tasks ≡ false) (sym named) idle)),
    )
