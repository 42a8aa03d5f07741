-- ===== src/Scope/Tests.antt =====
-- Scopes of small texts: "a/" is 97 47, "b" is 98.
use copy_s3_to_oci.Base.{◌≡◌, ◌↔◌, refl, true, some, List, [], ◌∷◌, All, select, map}
use copy_s3_to_oci.Http.{ok, err, HttpError}
use copy_s3_to_oci.Schema.{Db}
use copy_s3_to_oci.Samples.{busy, source}
use copy_s3_to_oci.Scope.{
  Text, starts_with, clean, given, in_prefixes, normalize_source_prefixes, s3_prefixes_overlap,
  other_active, active_source_scope_conflicts,
}
use copy_s3_to_oci.Scope.Keys.{s3_prefixes_overlap-shares}
use copy_s3_to_oci.Scope.Normal.{Apart, normalize_source_prefixes-Apart}
use copy_s3_to_oci.Scope.Conflicts.{SourceApart, active_source_scope_conflicts-apart}

s3_prefixes_overlap-shares_example :
    (s3_prefixes_overlap (97 ∷ []) (97 ∷ 47 ∷ []) ≡ true)
    ↔ ((key : Text) × (starts_with key (97 ∷ []) ≡ true) × (starts_with key (97 ∷ 47 ∷ []) ≡ true))
s3_prefixes_overlap-shares_example = s3_prefixes_overlap-shares (97 ∷ []) (97 ∷ 47 ∷ [])

-- " b", "/a/" and "b " are two prefixes; "a" beside "a/" is refused.
abbrev wanted : List Text
wanted = (32 ∷ 98 ∷ []) ∷ (47 ∷ 97 ∷ 47 ∷ []) ∷ (98 ∷ 32 ∷ []) ∷ []

normal : normalize_source_prefixes wanted [] ≡ ok ((97 ∷ 47 ∷ []) ∷ (98 ∷ []) ∷ [])
unfolding normalize_source_prefixes
normal = refl

nested :
    normalize_source_prefixes ((97 ∷ []) ∷ (97 ∷ 47 ∷ []) ∷ []) [] ≡ err HttpError.unprocessable
unfolding normalize_source_prefixes
nested = refl

normalize_source_prefixes-Apart_example :
    Apart ((97 ∷ 47 ∷ []) ∷ (98 ∷ []) ∷ [])
    × ((key : Text)
        → in_prefixes key ((97 ∷ 47 ∷ []) ∷ (98 ∷ []) ∷ [])
          ≡ in_prefixes key (map clean (given wanted [])))
normalize_source_prefixes-Apart_example = normalize_source_prefixes-Apart wanted [] _ normal

-- Source 1 has the scope "a/" of the bucket, source 2 asks for "b".
abbrev separate : Db
separate = record busy {
  sources = record (source 1) { prefixes = (97 ∷ 47 ∷ []) ∷ [] } ∷ source 2 ∷ [];
}

no_conflict : active_source_scope_conflicts 1 ((98 ∷ []) ∷ []) (some 2) separate ≡ ok []
unfolding active_source_scope_conflicts
no_conflict = refl

active_source_scope_conflicts-apart_example :
    All (SourceApart ((98 ∷ []) ∷ [])) (select (other_active 1 (some 2)) separate.sources)
active_source_scope_conflicts-apart_example =
    active_source_scope_conflicts-apart 1 ((98 ∷ []) ∷ []) (some 2) separate no_conflict
