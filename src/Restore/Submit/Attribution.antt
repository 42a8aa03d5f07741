-- ===== src/Restore/Submit/Attribution.antt =====
-- Whose evidence a line of the report is: the lines about the rows of a manifest.
use copy_s3_to_oci.Base.{
  ℕ, ◌<◌, ◌≡◌, Bool, false, ◌&&◌, Option, none, some, List, [], ◌∷◌, any, text_eq, same_value, All,
}
use copy_s3_to_oci.Schema.{ObjectRecord}
use copy_s3_to_oci.Restore.Report.{Line, by_key, object_of_line}
use copy_s3_to_oci.Restore.Submit.{ManifestRow}

-- The version column of a report is empty where the manifest has none.
abbrev pub version_of : Option (Option ℕ) → Option ℕ
version_of none = none
version_of (some version) = version

-- A line of the report about a row of the manifest: S3 Batch repeats its key and its version.
abbrev pub echoed : Line → ManifestRow → Line
echoed l m = record l { key = m.key; version_id = version_of m.version }

abbrev same_object : ObjectRecord → ObjectRecord → Bool
same_object o p = text_eq p.object_key o.object_key && same_value p.version_id o.version_id

-- No two objects have the same key and version.
abbrev pub AreApart : List ObjectRecord → Type 0
AreApart [] = Unit
AreApart (o ∷ os) = (any (same_object o) os ≡ false) × AreApart os

-- The evidence `l` about a row is taken for that of the archived object that the row was written for.
abbrev pub AreAttributed : List ObjectRecord → Line → List ObjectRecord → List ManifestRow → Type 0
AreAttributed objects l [] [] = Unit
AreAttributed objects l [] (m ∷ ms) = ⊥
AreAttributed objects l (o ∷ os) [] = ⊥
AreAttributed objects l (o ∷ os) (m ∷ ms) =
    (object_of_line objects (echoed l m) ≡ some o) × AreAttributed objects l os ms

abbrev IsFound : List ObjectRecord → ObjectRecord → Type 0
IsFound objects o = by_key o.object_key o.version_id objects ≡ some o

module _ (objects : List ObjectRecord) (l : Line) (from : ℕ) (b : Bool) where
  abbrev IsRead : ObjectRecord → Type 0
  IsRead o = IsFound objects o × All (λ c. c < 256) o.object_key
