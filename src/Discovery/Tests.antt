-- ===== src/Discovery/Tests.antt =====
-- A rediscovery that meets a moved object, an unassigned one and a new key.
use copy_s3_to_oci.Base.{ℕ, ◌≡◌, refl, some, none, List, [], ◌∷◌}
use copy_s3_to_oci.Schema.{ObjectState, get_object}
use copy_s3_to_oci.Samples.{busy, object}
use copy_s3_to_oci.Discovery.{Row, merge_discovery_rows}
use copy_s3_to_oci.Discovery.Merge.{merge_discovery_rows-keeps_assigned}

abbrev row : ℕ → ℕ → Row
row key size = record {
  object_key = key ∷ [];
  size_bytes = size;
  version_id = none;
  etag = some size;
  storage_class = none;
  last_modified = none;
  source_checksum = none;
  checksum_algorithm = none;
}

abbrev rows : List Row
rows = row 1 41 ∷ row 3 501 ∷ row 4 9 ∷ row 1 41 ∷ []

-- One new, one updated, two observations; the second sight of key 1 is no new observation.
counts : (merge_discovery_rows 1 none rows busy).0 ≡ (1, 1, 2)
unfolding merge_discovery_rows
counts = refl

merge_discovery_rows-keeps_assigned_example :
    get_object 1 (merge_discovery_rows 1 none rows busy).1.objects
    ≡ some (object 1 1 40 (some 10) ObjectState.restored)
merge_discovery_rows-keeps_assigned_example =
    merge_discovery_rows-keeps_assigned 1 none rows busy 1 _ (refl, (refl, (refl, tt))) refl refl
