-- ===== src/Waves/Reapproval.antt =====
-- `restore_reapproval_is_required`, `cancel_superseded_wave_tasks`, `finish_superseded_restore_poll`
-- and `require_new_restore_approval` of app/real_worker.py. `simulation` says whether the process is
-- an isolated simulation, whose held clock is then let go; `message` stands for the error's text.
pub mod Gate
use copy_s3_to_oci.Base.{
  ℕ, Bool, true, false, ◌&&◌, ◌||◌, not, Option, none, some, List, [], ◌∷◌, ◌==◌, holds,
  update_where, count, if◌then◌else◌,
}
use copy_s3_to_oci.Schema.{
  Task, TaskState, Wave, WaveStatus, ObjectRecord, ObjectState, Db, EventKind, is_ready,
  is_delivered, is_reapproval, set_wave, set_task, log,
}

unfoldable pub restore_reapproval_is_required : Wave → Bool
restore_reapproval_is_required w = w.restore_reapproval_required || is_reapproval w.status

abbrev pub superseded : ℕ → Option ℕ → Task → Bool
superseded wave active t = (t.wave_id == wave && is_ready t.state) && not (holds active t.id)

abbrev pub superseded_task : ℕ → Task → Task
superseded_task message t = record t {
  state = TaskState.cancelled;
  lease_expires_at = none;
  error = some message;
}

unfoldable pub cancel_superseded_wave_tasks : ℕ → ℕ → Option ℕ → Db → ℕ × Db
cancel_superseded_wave_tasks message wave active db = (
  count (superseded wave active) db.tasks,
  record db { tasks = update_where (superseded wave active) (superseded_task message) db.tasks },
)

unfoldable pub finish_superseded_restore_poll : ℕ → Task → Wave → Db → Db
finish_superseded_restore_poll message task w db =
    log EventKind.restore_poll_superseded (some w.source_id) (some w.id)
      (set_task task.id (superseded_task message) db)

abbrev pub lost : ℕ → ObjectRecord → Bool
lost wave o = holds o.wave_id wave && not (is_delivered o.state)

abbrev pub lost_object : ObjectRecord → ObjectRecord
lost_object o = record o {
  state = ObjectState.wave_assigned;
  restored_at = none;
  restore_expires_at = none;
}

-- `release_simulation_clock_after_transfer` leaves the hold in place outside a simulation.
abbrev pub gated : Bool → ℕ → ℕ → Wave → Wave
gated simulation reason now w = record w {
  status = WaveStatus.restore_reapproval_required;
  restore_reapproval_required = true;
  restore_reapproval_reason = some reason;
  restore_reapproval_detected_at = some now;
  simulation_transfer_clock_held = not simulation && w.simulation_transfer_clock_held;
}

unfoldable pub require_new_restore_approval : Bool → ℕ → ℕ → ℕ → Wave → Db → Db
unfolding cancel_superseded_wave_tasks
require_new_restore_approval simulation message reason now w db =
    log EventKind.restore_reapproval_required (some w.source_id) (some w.id)
      (cancel_superseded_wave_tasks message w.id none (
        set_wave w.id (gated simulation reason now)
          (record db { objects = update_where (lost w.id) lost_object db.objects }))).1
