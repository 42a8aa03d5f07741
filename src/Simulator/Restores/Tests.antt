-- ===== src/Simulator/Restores/Tests.antt =====
-- Two restores of one object, the second one refused while the first is good and accepted after it.
use copy_s3_to_oci.Base.{ℕ, ◌+◌, ◌≡◌, refl, false, none, some, List, [], ◌∷◌}
use copy_s3_to_oci.Simulator.Restores.{
  VirtualObject, StorageClass, RestoreState, Fault, read_range, restore_object, head_object,
}
use copy_s3_to_oci.Simulator.Restores.Windows.{
  Request, window, answers, is_open, AreApart, answers-read_range,
}

abbrev glacier_object : VirtualObject
glacier_object = record {
  storage_class = StorageClass.glacier;
  restore_state = RestoreState.archived;
  restore_requested_at = none;
  restore_available_at = none;
  restore_expires_at = none;
}

abbrev history : List (ℕ × Request)
history =
    (10, Request.restore Fault.no_fault (some 3600) 1)
    ∷ (100, Request.restore Fault.no_fault (some 7200) 2)
    ∷ (5000, Request.read false)
    ∷ (90000, Request.restore Fault.refusal (some 3600) 1)
    ∷ (5, Request.restore (Fault.delay_seconds 40) (some 3600) 1)
    ∷ (1, Request.head)
    ∷ []

two_windows :
    (answers history (0, glacier_object, [])).2 ≡ window 95115 3640 1 ∷ window 10 3600 1 ∷ []
unfolding answers restore_object head_object read_range
two_windows = refl

answers-read_range_example :
    let (now, item, windows) = answers history (0, glacier_object, []) in
    ((read_range false (now + 4000) item).0 ≡ is_open windows (now + 4000)) × AreApart windows
answers-read_range_example = answers-read_range history 0 4000 glacier_object refl refl refl refl
