-- ===== src/Waves/Lifecycle/Delete.antt =====
-- The rows of a wave that is deleted, and its objects.
use copy_s3_to_oci.Base.{
  ℕ, ◌+◌, ◌≡◌, refl, sym, subst, false, ◌&&◌, not, none, some, List, [], ◌∷◌, ◌==◌, arith, All,
  All-update_where_any, select, update_where, any, holds, count, length, any-none,
  length-update_where, is_none,
}
use copy_s3_to_oci.Http.{ok}
use copy_s3_to_oci.Schema.{Task, Wave, QueueItem, ObjectRecord, Db, get_wave, is_discovered}
use copy_s3_to_oci.Waves.Lifecycle.{
  delete_wave, deleted, executed_task, progressed_object, returned_object,
}

-- No row refers to the wave any more, no object is lost, and those of the wave are discovered.
pub record IsDeleted (w : Wave) (db after : Db) : Type 0 where
  pub waves : get_wave w.id after.waves ≡ none
  pub tasks : All (λ t. (t.wave_id == w.id) ≡ false) after.tasks
  pub items : All (λ i. (i.wave_id == w.id) ≡ false) after.items
  pub unassigned : All (λ o. holds o.wave_id w.id ≡ false) after.objects
  pub returned :
      count (λ o. is_discovered o.state && is_none o.wave_id) after.objects
      ≡ count (λ o. is_discovered o.state && is_none o.wave_id) db.objects
        + count (λ o. holds o.wave_id w.id) db.objects
  pub kept : length after.objects ≡ length db.objects

not_tasks :
    (key : ℕ) (ts : List Task)
    → All (λ t. (t.wave_id == key) ≡ false) (select (λ t. not (t.wave_id == key)) ts)
not_tasks key [] = tt
not_tasks key (t ∷ ts) = ground (arith, not_tasks key ts)

not_items :
    (key : ℕ) (is : List QueueItem)
    → All (λ i. (i.wave_id == key) ≡ false) (select (λ i. not (i.wave_id == key)) is)
not_items key [] = tt
not_items key (i ∷ is) = ground (arith, not_items key is)

no_wave : (key : ℕ) (ws : List Wave) → get_wave key (select (λ v. not (v.id == key)) ws) ≡ none
no_wave key [] = refl
no_wave key (v ∷ ws) = ground (arith, no_wave key ws)

returned_count :
    (key : ℕ) (os : List ObjectRecord)
    → count
        (λ o. is_discovered o.state && is_none o.wave_id)
        (update_where (λ o. holds o.wave_id key) returned_object os)
      ≡ count (λ o. is_discovered o.state && is_none o.wave_id) os
        + count (λ o. holds o.wave_id key) os
returned_count key [] = refl
returned_count key (o ∷ os) = ground (arith, returned_count key os)

deleted-IsDeleted : (w : Wave) (db : Db) → IsDeleted w db (deleted w db)
deleted-IsDeleted w db = record {
  waves = no_wave w.id db.waves;
  tasks = not_tasks w.id db.tasks;
  items = not_items w.id db.items;
  unassigned =
      All-update_where_any (λ o. holds o.wave_id w.id) returned_object (λ o h. refl) (λ o h. h)
        db.objects;
  returned = returned_count w.id db.objects;
  kept = length-update_where (λ o. holds o.wave_id w.id) returned_object db.objects;
}

delete_wave-ok :
    (key n : ℕ) (db after : Db)
    → delete_wave key db ≡ ok (n, after)
    → (w : Wave) × (get_wave key db.waves ≡ some w)
      × (any (executed_task key) db.tasks ≡ false)
      × (any (progressed_object key) db.objects ≡ false)
      × (n ≡ count (λ o. holds o.wave_id key) db.objects)
      × (after ≡ deleted w db)
unfolding delete_wave
delete_wave-ok key n db after h = ground arith

-- A deletion that is accepted found no task of the wave ever claimed and no object of it past
-- its assignment; after it no wave row, task, item or object refers to the wave, no object is
-- lost, and as many objects as the reply says have become discovered and free.
pub delete_wave-IsDeleted :
    (key n : ℕ) (db after : Db)
    → delete_wave key db ≡ ok (n, after)
    → (w : Wave) × (get_wave key db.waves ≡ some w)
      × All (λ t. executed_task key t ≡ false) db.tasks
      × All (λ o. progressed_object key o ≡ false) db.objects
      × (n ≡ count (λ o. holds o.wave_id key) db.objects)
      × IsDeleted w db after
delete_wave-IsDeleted key n db after h =
    let (w, e, unclaimed, unmoved, counted, same) = delete_wave-ok key n db after h in
    (
      w,
      e,
      any-none (executed_task key) db.tasks unclaimed,
      any-none (progressed_object key) db.objects unmoved,
      counted,
      subst (IsDeleted w db) (sym same) (deleted-IsDeleted w db),
    )
