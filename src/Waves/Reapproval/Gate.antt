-- ===== src/Waves/Reapproval/Gate.antt =====
-- What is queued for a wave that waits for the approval of a new restore.
use copy_s3_to_oci.Base.{
  ℕ, ◌≡◌, refl, Bool, true, false, ◌&&◌, none, some, List, [], ◌∷◌, ◌==◌, arith, select,
  update_where, All, All-update_where_any, ◌⊎◌, inl, inr,
}
use copy_s3_to_oci.Http.{err, HttpError}
use copy_s3_to_oci.Schema.{Wave, ObjectRecord, Db, is_ready, is_delivered, get_wave}
use copy_s3_to_oci.Waves.Cancel.Pause.{set_wave-hit}
use copy_s3_to_oci.Waves.Lifecycle.{reprocess_wave}
use copy_s3_to_oci.Waves.Reapproval.{
  superseded, superseded_task, lost, lost_object, gated, cancel_superseded_wave_tasks,
  require_new_restore_approval,
}

-- The state of a wave whose restored copies were lost.
pub record IsGated (simulation : Bool) (reason now : ℕ) (w : Wave) (db after : Db) : Type 0 where
  pub wave : get_wave w.id after.waves ≡ some (gated simulation reason now w)
  pub tasks : All (λ t. t.wave_id == w.id && is_ready t.state ≡ false) after.tasks
  pub objects :
      All
        (λ o. (lost w.id o ≡ false) ⊎ ((o.restored_at ≡ none) × (o.restore_expires_at ≡ none)))
        after.objects
  pub delivered :
      select (λ o. is_delivered o.state) after.objects
      ≡ select (λ o. is_delivered o.state) db.objects
  pub unapproved :
      (note later : ℕ) → reprocess_wave w.id false note later after ≡ err HttpError.conflict

lost-delivered :
    (key : ℕ) (os : List ObjectRecord)
    → select (λ o. is_delivered o.state) (update_where (lost key) lost_object os)
      ≡ select (λ o. is_delivered o.state) os
lost-delivered key [] = refl
lost-delivered key (o ∷ os) = ground (arith, lost-delivered key os)

unapproved-conflict :
    (key note later : ℕ) (v : Wave) (db : Db)
    → get_wave key db.waves ≡ some v
    → v.restore_reapproval_required ≡ true
    → reprocess_wave key false note later db ≡ err HttpError.conflict
unfolding reprocess_wave
unapproved-conflict key note later v db e gate = rw (e, reprocess_wave) (rw gate refl)

-- When a wave of the database has lost its restored copies, the wave is marked for approval,
-- none of its tasks is ready, its undelivered objects have no restore times, the delivered
-- objects are as before, and reprocessing it without approval is refused with 409.
pub require_new_restore_approval-IsGated :
    (simulation : Bool) (message reason now : ℕ) (w : Wave) (db : Db)
    → get_wave w.id db.waves ≡ some w
    → IsGated simulation reason now w db
        (require_new_restore_approval simulation message reason now w db)
unfolding require_new_restore_approval cancel_superseded_wave_tasks
require_new_restore_approval-IsGated simulation message reason now w db e =
    let found = set_wave-hit w.id (gated simulation reason now) db.waves (λ v. refl) e in
    record {
      wave = found;
      tasks =
          All-update_where_any (superseded w.id none) (superseded_task message)
            (λ t h. ground arith) (λ t h. ground arith) db.tasks;
      objects =
          All-update_where_any (lost w.id) lost_object (λ o h. inr (refl, refl)) (λ o h. inl h)
            db.objects;
      delivered = lost-delivered w.id db.objects;
      unapproved = λ note later.
          unapproved-conflict w.id note later (gated simulation reason now w)
            (require_new_restore_approval simulation message reason now w db) found refl;
    }
