-- ===== src/Discovery.antt =====
-- `discovery_row_changed` and `merge_discovery_rows` of app/main.py: what a rediscovery of a source
-- writes. A row is one object of the listing; texts other than keys are numbers.
pub mod Merge
mod Tests
use copy_s3_to_oci.Base.{
  ℕ, ◌+◌, Bool, true, false, ◌&&◌, ◌||◌, not, Option, none, some, List, [], ◌∷◌, ◌++◌, ◌==◌, any,
  find_by, update_where, is_some, if◌then◌else◌, text_eq, same_value,
}
use copy_s3_to_oci.Schema.{
  ObjectRecord, ObjectState, DiscoveryChange, DiscoveryJob, ChangeType, Db, is_discovered,
}

pub record Row : Type 0 where
  pub object_key : List ℕ
  pub size_bytes : ℕ
  pub version_id : Option ℕ
  pub etag : Option ℕ
  pub storage_class : Option ℕ
  pub last_modified : Option ℕ
  pub source_checksum : Option ℕ
  pub checksum_algorithm : Option ℕ

-- Both values are known, and they differ.
abbrev pub differs : Option ℕ → Option ℕ → Bool
differs none incoming = false
differs (some a) none = false
differs (some a) (some b) = not (a == b)

unfoldable pub discovery_row_changed : ObjectRecord → Row → Bool
discovery_row_changed o r =
    not (o.size_bytes == r.size_bytes)
    || differs o.etag r.etag
    || differs o.version_id r.version_id
    || differs o.last_modified r.last_modified

-- The current revision of a key of the source; the database has at most one.
abbrev pub is_prior : ℕ → List ℕ → ObjectRecord → Bool
is_prior source key o = o.source_id == source && o.is_current_revision && text_eq o.object_key key

-- A wave has taken the object, or its state has moved on.
abbrev pub is_assigned : ObjectRecord → Bool
is_assigned o = is_some o.wave_id || not (is_discovered o.state)

abbrev pub is_modified : ChangeType → Bool
is_modified ChangeType.modified = true
is_modified ChangeType.updated = false

abbrev pub is_duplicate : ℕ → Row → DiscoveryChange → Bool
is_duplicate source r c =
    (c.source_id == source && text_eq c.object_key r.object_key)
    && is_modified c.change_type
    && (c.current_size_bytes == r.size_bytes)
    && same_value c.current_etag r.etag

abbrev pub observed : ℕ → ℕ → Option ℕ → ChangeType → ObjectRecord → Row → DiscoveryChange
observed key source job type prior r = record {
  id = key;
  source_id = source;
  discovery_job_id = job;
  object_key = r.object_key;
  change_type = type;
  previous_size_bytes = prior.size_bytes;
  current_size_bytes = r.size_bytes;
  previous_etag = prior.etag;
  current_etag = r.etag;
  previous_version_id = prior.version_id;
  current_version_id = r.version_id;
  previous_last_modified = prior.last_modified;
  current_last_modified = r.last_modified;
}

-- `if row[field] is not None: setattr(prior, field, row[field])`.
abbrev pub or_old : Option ℕ → Option ℕ → Option ℕ
or_old none old = old
or_old (some new) old = some new

abbrev pub refreshed : Row → ObjectRecord → ObjectRecord
refreshed r o = record o {
  size_bytes = r.size_bytes;
  version_id = or_old r.version_id o.version_id;
  etag = or_old r.etag o.etag;
  storage_class = or_old r.storage_class o.storage_class;
  last_modified = or_old r.last_modified o.last_modified;
  source_checksum = or_old r.source_checksum o.source_checksum;
  checksum_algorithm = or_old r.checksum_algorithm o.checksum_algorithm;
}

-- The variables of the loop. The fresh rows are inserted after it.
pub record Progress : Type 0 where
  pub objects : List ObjectRecord
  pub changes : List DiscoveryChange
  pub next_id : ℕ
  pub fresh : List Row
  pub new : ℕ
  pub updated : ℕ
  pub changed : ℕ

abbrev pub note : DiscoveryChange → Progress → Progress
note c p = record p {
  changes = p.changes ++ c ∷ [];
  next_id = p.next_id + 1;
  changed = p.changed + 1;
}

abbrev pub note_modified : ℕ → Option ℕ → ObjectRecord → Row → Progress → Progress
note_modified source job prior r p =
    if any (is_duplicate source r) p.changes
    then p
    else note (observed p.next_id source job ChangeType.modified prior r) p

abbrev pub update_prior : ℕ → Option ℕ → ObjectRecord → Row → Progress → Progress
update_prior source job prior r p =
    note (observed p.next_id source job ChangeType.updated prior r) (record p {
      objects = update_where (λ o. o.id == prior.id) (refreshed r) p.objects;
      updated = p.updated + 1;
    })

abbrev pub merge_prior : ℕ → Option ℕ → Option ObjectRecord → Row → Progress → Progress
unfolding discovery_row_changed
merge_prior source job none r p = record p { fresh = p.fresh ++ r ∷ []; new = p.new + 1 }
merge_prior source job (some prior) r p =
    if not (discovery_row_changed prior r)
    then p
    else if is_assigned prior
    then note_modified source job prior r p
    else update_prior source job prior r p

unfoldable pub merge_row : ℕ → Option ℕ → Row → Progress → Progress
unfolding merge_prior
merge_row source job r p =
    merge_prior source job (find_by (is_prior source r.object_key) p.objects) r p

pub merge_all : ℕ → Option ℕ → List Row → Progress → Progress
unfolding merge_row
merge_all source job [] p = p
merge_all source job (r ∷ rs) p = merge_all source job rs (merge_row source job r p)

-- A row of the bulk insert, with the columns' defaults.
abbrev pub inserted : ℕ → ℕ → Row → ObjectRecord
inserted key source r = record {
  id = key;
  source_id = source;
  is_current_revision = true;
  object_key = r.object_key;
  version_id = r.version_id;
  size_bytes = r.size_bytes;
  etag = r.etag;
  storage_class = r.storage_class;
  last_modified = r.last_modified;
  source_checksum = r.source_checksum;
  checksum_algorithm = r.checksum_algorithm;
  restore_requested_at = none;
  restore_attempt_id = none;
  restored_at = none;
  restore_expires_at = none;
  planned_transfer_ms = 0;
  transferred_at = none;
  transfer_progress_bytes = 0;
  transfer_rate_kbps = 0;
  state = ObjectState.discovered;
  wave_id = none;
}

pub insert_fresh : ℕ → List Row → Db → Db
insert_fresh source [] db = db
insert_fresh source (r ∷ rs) db = insert_fresh source rs (record db {
  objects = db.objects ++ inserted db.next_id source r ∷ [];
  next_id = db.next_id + 1;
})

abbrev pub count_job : Option ℕ → Progress → List DiscoveryJob → List DiscoveryJob
count_job none p jobs = jobs
count_job (some key) p jobs =
    update_where (λ j. j.id == key)
      (λ j. record j {
        objects_new = j.objects_new + p.new;
        objects_updated = j.objects_updated + p.updated;
        objects_changed = j.objects_changed + p.changed;
      })
      jobs

abbrev pub begin : Db → Progress
begin db = record {
  objects = db.objects;
  changes = db.changes;
  next_id = db.next_id;
  fresh = [];
  new = 0;
  updated = 0;
  changed = 0;
}

abbrev pub store : Option ℕ → Progress → Db → Db
store job p db = record db {
  objects = p.objects;
  changes = p.changes;
  next_id = p.next_id;
  jobs = count_job job p db.jobs;
}

-- The counts of new, updated and changed rows, and the database.
unfoldable pub merge_discovery_rows : ℕ → Option ℕ → List Row → Db → (ℕ × ℕ × ℕ) × Db
unfolding merge_all insert_fresh
merge_discovery_rows source job rows db =
    let p = merge_all source job rows (begin db) in
    ((p.new, p.updated, p.changed), insert_fresh source p.fresh (store job p db))
