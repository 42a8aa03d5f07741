-- ===== src/Waves/Tests.antt =====
-- Pausing, resuming, reprocessing, deleting and archiving on the sample databases.
use copy_s3_to_oci.Base.{◌≡◌, refl, some, true, false, [], ◌∷◌, ◌++◌, All, any, count, holds, ◌⊎◌}
use copy_s3_to_oci.Http.{ok}
use copy_s3_to_oci.Schema.{Db, Wave, WaveStatus, TaskKind, is_paused, get_wave, new_task}
use copy_s3_to_oci.Samples.{busy, idle, wave}
use copy_s3_to_oci.Waves.Cancel.{pause_wave, resume_wave, paused, active_of}
use copy_s3_to_oci.Waves.Cancel.Pause.{IsStopped, pause_wave-IsStopped, pause-resume-submits}
use copy_s3_to_oci.Waves.Lifecycle.{
  reprocess_wave, reprocessed, delete_wave, deleted, executed_task, progressed_object,
}
use copy_s3_to_oci.Waves.Lifecycle.Reprocess.{IsRestarted, reprocess_wave-IsRestarted}
use copy_s3_to_oci.Waves.Lifecycle.Delete.{IsDeleted, delete_wave-IsDeleted}
use copy_s3_to_oci.Waves.Reapproval.{require_new_restore_approval}
use copy_s3_to_oci.Waves.Reapproval.Gate.{IsGated, require_new_restore_approval-IsGated}

pause_wave-IsStopped_example :
    (after : Db) × (pause_wave 10 5 busy ≡ ok after)
    × IsStopped 10 busy after
    × (get_wave 10 after.waves ≡ some (paused (wave 10 1 WaveStatus.restoring)))
pause_wave-IsStopped_example =
    pause_wave-IsStopped 10 5 busy (wave 10 1 WaveStatus.restoring) refl refl

pause-resume-submits_example :
    (paused_db after : Db) × (pause_wave 11 5 busy ≡ ok paused_db)
    × (resume_wave 11 6 200 paused_db ≡ ok after)
    × (get_wave 11 after.waves ≡ some (wave 11 1 WaveStatus.ready_for_restore))
    × (after.tasks ≡ paused_db.tasks ++ new_task 100 11 TaskKind.submit_batch_restore 200 ∷ [])
pause-resume-submits_example =
    pause-resume-submits 11 5 6 200 busy (wave 11 1 WaveStatus.planned) refl refl (refl, (refl, tt))

-- Wave 20 has no active task.
reprocess :
    reprocess_wave 20 true 5 100 busy
    ≡ ok (reprocessed 5 100 (wave 20 2 WaveStatus.transfer_draining) busy)
unfolding reprocess_wave
reprocess = refl

reprocess_wave-IsRestarted_example :
    (w : Wave) × (get_wave 20 busy.waves ≡ some w)
    × ((w.restore_reapproval_required ≡ false) ⊎ (true ≡ true))
    × (is_paused w.status ≡ false)
    × (any (active_of 20) busy.tasks ≡ false)
    × IsRestarted 5 100 w busy (reprocessed 5 100 (wave 20 2 WaveStatus.transfer_draining) busy)
reprocess_wave-IsRestarted_example = reprocess_wave-IsRestarted 20 5 100 true busy _ reprocess

delete : delete_wave 11 idle ≡ ok (1, deleted (wave 11 1 WaveStatus.planned) idle)
unfolding delete_wave
delete = refl

delete_wave-IsDeleted_example :
    (w : Wave) × (get_wave 11 idle.waves ≡ some w)
    × All (λ t. executed_task 11 t ≡ false) idle.tasks
    × All (λ o. progressed_object 11 o ≡ false) idle.objects
    × (1 ≡ count (λ o. holds o.wave_id 11) idle.objects)
    × IsDeleted w idle (deleted (wave 11 1 WaveStatus.planned) idle)
delete_wave-IsDeleted_example = delete_wave-IsDeleted 11 1 idle _ delete

require_new_restore_approval-IsGated_example :
    IsGated false 6 100
      (wave 10 1 WaveStatus.restoring)
      busy
      (require_new_restore_approval false 5 6 100 (wave 10 1 WaveStatus.restoring) busy)
require_new_restore_approval-IsGated_example =
    require_new_restore_approval-IsGated false 5 6 100 (wave 10 1 WaveStatus.restoring) busy refl
