-- ===== src/Scope.antt =====
-- The S3 scope of a source (app/main.py): `normalize_source_prefixes`, `source_prefix_values`,
-- `source_key_in_scope`, `s3_prefixes_overlap`, `active_source_scope_conflicts` and
-- `require_non_overlapping_source_scope`. Texts are lists of code points.
mod Strings
mod Tests
pub mod Keys
pub mod Normal
pub mod Conflicts
pub use Strings.*
use copy_s3_to_oci.Base.{
  ℕ, ◌+◌, Bool, true, false, ◌&&◌, ◌||◌, not, Option, none, some, List, [], ◌∷◌, ◌++◌, ◌==◌, ltb,
  any, map, select, is_none, holds, length, if◌then◌else◌,
}
use copy_s3_to_oci.Http.{Reply, ok, err, HttpError, raise_if, ◌>>=◌, ◌>>◌}
use copy_s3_to_oci.Schema.{Source, Db}

-- `prefixes if prefixes else [legacy_prefix]`.
abbrev pub given : List Text → Text → List Text
given [] legacy = legacy ∷ []
given (p ∷ ps) legacy = p ∷ ps

-- The whole bucket next to another prefix.
abbrev pub mixes_whole : List Text → Bool
mixes_whole ps = any is_empty ps && ltb 1 (length ps)

-- The double loop: a later value begins with an earlier one.
unfoldable pub has_nested : List Text → Bool
has_nested [] = false
has_nested (p ∷ ps) = any (λ q. starts_with q p) ps || has_nested ps

abbrev pub or_whole : List Text → List Text
or_whole [] = [] ∷ []
or_whole (p ∷ ps) = p ∷ ps

unfoldable pub normalize_source_prefixes : List Text → Text → Reply (List Text)
unfolding has_nested
normalize_source_prefixes prefixes legacy = do
  let normalized = or_whole (sorted_set (map clean (given prefixes legacy)))
  raise_if (mixes_whole normalized) HttpError.unprocessable
  raise_if (has_nested normalized) HttpError.unprocessable
  ok normalized

unfoldable pub source_prefix_values : Source → Reply (List Text)
unfolding normalize_source_prefixes
source_prefix_values s = normalize_source_prefixes s.prefixes s.prefix

abbrev pub in_prefixes : Text → List Text → Bool
in_prefixes key ps = any (λ p. is_empty p || starts_with key p) ps

unfoldable pub source_key_in_scope : Source → Text → Reply Bool
unfolding source_prefix_values
source_key_in_scope s key = do ps ← source_prefix_values s; ok (in_prefixes key ps)

unfoldable pub s3_prefixes_overlap : Text → Text → Bool
s3_prefixes_overlap left right =
    is_empty left || is_empty right || starts_with left right || starts_with right left

pub record Conflict : Type 0 where
  pub source_id : ℕ
  pub requested_prefix : Text
  pub existing_prefix : Text

abbrev pub conflict : ℕ → Text → Text → Conflict
conflict source requested existing = record {
  source_id = source;
  requested_prefix = requested;
  existing_prefix = existing;
}

pub conflicts_of : ℕ → Text → List Text → List Conflict
unfolding s3_prefixes_overlap
conflicts_of source requested [] = []
conflicts_of source requested (e ∷ es) =
    let rest = conflicts_of source requested es in
    if s3_prefixes_overlap requested e then conflict source requested e ∷ rest else rest

pub source_conflicts : Source → List Text → List Text → List Conflict
unfolding conflicts_of
source_conflicts s [] existing = []
source_conflicts s (p ∷ ps) existing =
    conflicts_of s.id p existing ++ source_conflicts s ps existing

-- The loop over the sources. With no requested prefix the scope of the source is not read.
pub conflicts_over : List Source → List Text → Reply (List Conflict)
unfolding source_conflicts source_prefix_values
conflicts_over [] ps = ok []
conflicts_over (s ∷ ss) ps = do
  existing ← (if is_empty_list ps then ok [] else source_prefix_values s)
  rest ← conflicts_over ss ps
  ok (source_conflicts s ps existing ++ rest)

abbrev pub other_active : ℕ → Option ℕ → Source → Bool
other_active bucket exclude s =
    (s.bucket == bucket && is_none s.archived_at) && not (holds exclude s.id)

unfoldable pub active_source_scope_conflicts : ℕ → List Text → Option ℕ → Db → Reply (List Conflict)
unfolding conflicts_over
active_source_scope_conflicts bucket ps exclude db =
    conflicts_over (select (other_active bucket exclude) db.sources) ps

abbrev pub has_conflict : List Conflict → Bool
has_conflict [] = false
has_conflict (c ∷ cs) = true

-- Outside a simulation; a simulation is let through.
unfoldable pub require_non_overlapping_source_scope : Bool → Source → Db → Reply (Unit {0})
unfolding active_source_scope_conflicts source_prefix_values
require_non_overlapping_source_scope true s db = ok tt
require_non_overlapping_source_scope false s db = do
  ps ← source_prefix_values s
  conflicts ← active_source_scope_conflicts s.bucket ps (some s.id) db
  raise_if (has_conflict conflicts) HttpError.conflict
