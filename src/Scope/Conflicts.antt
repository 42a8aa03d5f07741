-- ===== src/Scope/Conflicts.antt =====
-- Where no conflict is reported, no key is in the requested scope and in another active source's.
use copy_s3_to_oci.Base.{
  ℕ, ◌≡◌, refl, sym, ap, ◌∙◌, true, false, ◌&&◌, ◌||◌, Option, List, [], ◌∷◌, ◌++◌, All, any,
  select, if◌then◌else◌, Bool-cases, inl, inr,
}
use copy_s3_to_oci.Http.{Reply, ok, err, ◌>>=◌}
use copy_s3_to_oci.Schema.{Source, Db}
use copy_s3_to_oci.Scope.{
  Text, is_empty, starts_with, in_prefixes, s3_prefixes_overlap, conflicts_of, source_conflicts,
  conflicts_over, other_active, active_source_scope_conflicts, source_prefix_values, Conflict,
}
use copy_s3_to_oci.Scope.Keys.{s3_prefixes_overlap-shares}

-- The scopes `ps` and `es` have no key in common.
abbrev pub NoShared : List Text → List Text → Type 0
NoShared ps es = (key : Text) → in_prefixes key ps && in_prefixes key es ≡ false

nil-left : (xs ys : List Conflict) → xs ++ ys ≡ [] → (xs ≡ []) × (ys ≡ [])
nil-left [] ys h = (refl, h)
nil-left (x ∷ xs) ys h = cc

pub reached : (key p : Text) → (is_empty p || starts_with key p) ≡ true → starts_with key p ≡ true
reached [] [] h = refl
reached (c ∷ cs) [] h = refl
reached key (c ∷ cs) h = h

one-apart :
    (source : ℕ) (p : Text) (es : List Text)
    → conflicts_of source p es ≡ []
    → (key : Text) → starts_with key p ≡ true
    → in_prefixes key es ≡ false
unfolding conflicts_of
one-apart source p [] h key hp = refl
one-apart source p (e ∷ es) h key hp =
    let shares = s3_prefixes_overlap-shares p e in
    elim (Bool-cases (s3_prefixes_overlap p e)) [
      | inl o ↦ cc (rw (o, if◌then◌else◌) at h)
      | inr o ↦
          let rest = one-apart source p es (rw (o, if◌then◌else◌) at h) key hp in
          elim (Bool-cases (is_empty e || starts_with key e)) [
            | inl both ↦ cc (shares.1 (key, hp, reached key e both), o)
            | inr miss ↦ rw (miss, any) rest
          ]
    ]

pub source-apart :
    (s : Source) (ps es : List Text)
    → source_conflicts s ps es ≡ []
    → (key : Text) → in_prefixes key ps ≡ true
    → in_prefixes key es ≡ false
unfolding source_conflicts
source-apart s [] es h key hp = cc
source-apart s (p ∷ ps) es h key hp =
    let parts = nil-left (conflicts_of s.id p es) (source_conflicts s ps es) h in
    elim (Bool-cases (is_empty p || starts_with key p)) [
      | inl first ↦ one-apart s.id p es parts.0 key (reached key p first)
      | inr later ↦ source-apart s ps es parts.1 key (rw (later, any) at hp)
    ]

no-shared : (s : Source) (ps es : List Text) → source_conflicts s ps es ≡ [] → NoShared ps es
no-shared s ps es h key = elim (Bool-cases (in_prefixes key ps)) [
  | inl hp ↦ rw hp (source-apart s ps es h key hp)
  | inr e ↦ rw e refl
]

-- The scope of another source, where it can be read, is apart from `ps`.
abbrev pub ApartFrom : List Text → Reply (List Text) → Type 0
ApartFrom ps (ok es) = NoShared ps es
ApartFrom ps (err e) = Unit

abbrev pub SourceApart : List Text → Source → Type 0
unfolding source_prefix_values
SourceApart ps s = ApartFrom ps (source_prefix_values s)

apart-from :
    (s : Source) (ps : List Text) (read : Reply (List Text))
    → ((es : List Text) → read ≡ ok es → source_conflicts s ps es ≡ [])
    → ApartFrom ps read
apart-from s ps (ok es) h = no-shared s ps es (h es refl)
apart-from s ps (err e) h = tt

Reply-injective : (a b : List Text) → ok a ≡ ok b → a ≡ b
Reply-injective a b e = ap (λ (r : Reply (List Text)). elim r [ ok x ↦ x | err _ ↦ [] ]) e

rest-nil :
    (front : List Conflict) (m : Reply (List Conflict))
    → (m >>= λ rest. ok (front ++ rest)) ≡ ok []
    → (front ≡ []) × (m ≡ ok [])
rest-nil [] (ok rest) h = (refl, h)
rest-nil (c ∷ cs) (ok rest) h = cc
rest-nil front (err e) h = cc

over-step :
    (s : Source) (ps : List Text) (read : Reply (List Text)) (m : Reply (List Conflict))
    → (read >>= λ existing. m >>= λ rest. ok (source_conflicts s ps existing ++ rest)) ≡ ok []
    → ((es : List Text) → read ≡ ok es → source_conflicts s ps es ≡ []) × (m ≡ ok [])
over-step s ps (err e) m h = cc
over-step s ps (ok existing) m h =
    let both = rest-nil (source_conflicts s ps existing) m h in
    (
      λ es same. ap (source_conflicts s ps) (sym (Reply-injective existing es same)) ∙ both.0,
      both.1,
    )

none_asked : (s : Source) (es : List Text) → source_conflicts s [] es ≡ []
unfolding source_conflicts
none_asked s es = refl

over-apart :
    (ss : List Source) (ps : List Text) → conflicts_over ss ps ≡ ok [] → All (SourceApart ps) ss
unfolding conflicts_over
over-apart [] ps h = tt
over-apart (s ∷ ss) [] h = (
  apart-from s [] (source_prefix_values s) (λ es e. none_asked s es),
  over-apart ss [] (over-step s [] (ok []) _ h).1,
)
over-apart (s ∷ ss) (p ∷ ps) h =
    let step = over-step s (p ∷ ps) (source_prefix_values s) (conflicts_over ss (p ∷ ps)) h in
    (apart-from s (p ∷ ps) (source_prefix_values s) step.0, over-apart ss (p ∷ ps) step.1)

-- Where no conflict is reported, no key is both in the requested prefixes and in the scope of
-- an active source of the bucket other than the one left out.
pub active_source_scope_conflicts-apart :
    (bucket : ℕ) (ps : List Text) (exclude : Option ℕ) (db : Db)
    → active_source_scope_conflicts bucket ps exclude db ≡ ok []
    → All (SourceApart ps) (select (other_active bucket exclude) db.sources)
unfolding active_source_scope_conflicts
active_source_scope_conflicts-apart bucket ps exclude db h = over-apart _ ps h
