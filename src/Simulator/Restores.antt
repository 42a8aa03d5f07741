-- ===== src/Simulator/Restores.antt =====
-- One virtual object of app/simulation_engine.py and its restores: `_restore_is_available`,
-- `_expire_restore_if_needed`, `restore_object`, `head_object` and the gate of `read_range`. Instants are
-- virtual seconds. The delay that the scenario's configuration and seed give and the fault that its rules
-- inject are arguments, the delay `none` where the configuration is refused.
pub mod Windows
mod Tests
use copy_s3_to_oci.Base.{
  ℕ, ◌+◌, ◌*◌, Bool, true, false, not, ◌&&◌, ◌||◌, Option, none, some, ltb, leb, is_some,
  if◌then◌else◌,
}

pub data StorageClass : Type 0 where
  standard : StorageClass
  glacier : StorageClass
  deep_archive : StorageClass
  glacier_ir : StorageClass
  intelligent_tiering_archive_access : StorageClass
  intelligent_tiering_deep_archive_access : StorageClass

abbrev pub is_archival_storage : StorageClass → Bool
is_archival_storage StorageClass.standard = false
is_archival_storage _ = true

pub data RestoreState : Type 0 where
  archived : RestoreState
  restoring : RestoreState
  available : RestoreState
  expired : RestoreState

abbrev pub is_available_state : RestoreState → Bool
is_available_state RestoreState.available = true
is_available_state _ = false

pub record VirtualObject : Type 0 where
  pub storage_class : StorageClass
  pub restore_state : RestoreState
  pub restore_requested_at : Option ℕ
  pub restore_available_at : Option ℕ
  pub restore_expires_at : Option ℕ

abbrev pub since : Option ℕ → ℕ → Bool
since none now = false
since (some at) now = leb at now

abbrev pub restore_is_available : VirtualObject → ℕ → Bool
restore_is_available item now =
    not (is_archival_storage item.storage_class)
    || (since item.restore_available_at now && not (since item.restore_expires_at now))

abbrev pub is_expired : VirtualObject → ℕ → Bool
is_expired item now = is_archival_storage item.storage_class && since item.restore_expires_at now

abbrev pub expire_restore_if_needed : ℕ → VirtualObject → VirtualObject
expire_restore_if_needed now item =
    if is_expired item now then record item { restore_state = RestoreState.expired } else item

pub record Head : Type 0 where
  pub restore_in_progress : Bool
  pub restore_expires_at : Option ℕ

unfoldable pub head_object : ℕ → VirtualObject → Head × VirtualObject
head_object now item =
    let expired = is_expired item now in
    let available = restore_is_available item now in
    (
      record {
        restore_in_progress = is_some item.restore_requested_at && not available && not expired;
        restore_expires_at = if available then item.restore_expires_at else none;
      },
      if expired
          then record item { restore_state = RestoreState.expired }
          else if available
          then record item { restore_state = RestoreState.available }
          else item,
    )

-- The gate of a read from AWS, before the bytes; with `audit` it is open.
unfoldable pub read_range : Bool → ℕ → VirtualObject → Bool × VirtualObject
read_range audit now item =
    (audit || restore_is_available item now, expire_restore_if_needed now item)

pub data Fault : Type 0 where
  no_fault : Fault
  refusal : Fault
  delay_seconds : ℕ → Fault

-- One constructor for each way `restore_object` ends.
pub data Reply : Type 0 where
  already : Bool → Reply
  rejected : Reply
  invalid : Reply
  requested : Reply

abbrev pub day : ℕ
day = 86400

abbrev pub cleared : VirtualObject → VirtualObject
cleared item = record item {
  restore_state = RestoreState.expired;
  restore_requested_at = none;
  restore_available_at = none;
  restore_expires_at = none;
}

abbrev pub requested_until : ℕ → ℕ → ℕ → VirtualObject → VirtualObject
requested_until now at retention item = record item {
  restore_state = RestoreState.restoring;
  restore_requested_at = some now;
  restore_available_at = some at;
  restore_expires_at = some (at + retention * day);
}

abbrev pub extra : Fault → ℕ
extra (delay_seconds more) = more
extra _ = 0

-- `before` is what a refused configuration leaves.
abbrev pub request :
    Fault → Option ℕ → ℕ → ℕ → VirtualObject → VirtualObject → Reply × VirtualObject
request refusal delay retention now before item = (rejected, item)
request fault none retention now before item = (invalid, before)
request fault (some delay) retention now before item =
    (requested, requested_until now (now + (delay + extra fault)) retention item)

abbrev pub restore_unless :
    Option ℕ → Fault → Option ℕ → ℕ → ℕ → VirtualObject → VirtualObject → Reply × VirtualObject
restore_unless (some at) fault delay retention now before item =
    (already (not (is_available_state item.restore_state)), before)
restore_unless none fault delay retention now before item =
    request fault delay retention now before item

unfoldable pub restore_object : Fault → Option ℕ → ℕ → ℕ → VirtualObject → Reply × VirtualObject
restore_object fault delay retention now item =
    let usable = if is_expired item now then cleared item else item in
    restore_unless usable.restore_requested_at fault delay retention now item usable
