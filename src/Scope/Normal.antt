-- ===== src/Scope/Normal.antt =====
-- An accepted scope is the union of what was asked for, and no key is in two of its prefixes.
use copy_s3_to_oci.Base.{
  ◌≡◌, refl, sym, ap, subst, ◌∙◌, Bool, true, false, ◌&&◌, ◌||◌, List, [], ◌∷◌, arith, All, any,
  any-none, map, Bool-cases, inl, inr,
}
use copy_s3_to_oci.Http.{ok}
use copy_s3_to_oci.Scope.{
  Text, is_empty, starts_with, text_lt, insert_new, sorted_set, clean, given, mixes_whole,
  has_nested, or_whole, normalize_source_prefixes, in_prefixes,
}
use copy_s3_to_oci.Scope.Keys.{IsSorted, sorted_set-IsSorted, lt_not_starts, starts_with-comparable}

-- No key begins with two of the prefixes.
abbrev pub Apart : List Text → Type 0
Apart [] = Unit
Apart (p ∷ ps) =
    All (λ q. (key : Text) → starts_with key p && starts_with key q ≡ false) ps × Apart ps

later-Apart :
    (p q : Text)
    → text_lt p q ≡ true
    → starts_with q p ≡ false
    → (key : Text) → starts_with key p && starts_with key q ≡ false
later-Apart p q lt not_nested key = elim (Bool-cases (starts_with key p)) [
  | inl hp ↦ elim (Bool-cases (starts_with key q)) [
    | inl hq ↦ elim (starts_with-comparable key p q hp hq) [
      | inl nested ↦ cc (lt_not_starts p q lt)
      | inr nested ↦ cc
    ]
    | inr e ↦ rw (hp, e) refl
  ]
  | inr e ↦ rw e refl
]

later-All :
    (p : Text) (qs : List Text)
    → All (λ q. text_lt p q ≡ true) qs
    → All (λ q. starts_with q p ≡ false) qs
    → All (λ q. (key : Text) → starts_with key p && starts_with key q ≡ false) qs
later-All p [] lt h = tt
later-All p (q ∷ qs) lt h = (later-Apart p q lt.0 h.0, later-All p qs lt.1 h.1)

flat-Apart : (ps : List Text) → IsSorted ps → has_nested ps ≡ false → Apart ps
unfolding has_nested
flat-Apart [] sorted h = tt
flat-Apart (p ∷ ps) sorted h = (
  later-All p ps sorted.0 (any-none (λ q. starts_with q p) ps (ground arith)),
  flat-Apart ps sorted.1 (ground arith),
)

or_whole-IsSorted : (ps : List Text) → IsSorted ps → IsSorted (or_whole ps)
or_whole-IsSorted [] h = (tt, tt)
or_whole-IsSorted (p ∷ ps) h = h

-- What comes in through `insert_new` is there, and nothing is lost.
text_lt-connex : (p q : Text) → text_lt p q ≡ false → text_lt q p ≡ false → p ≡ q
text_lt-connex [] [] h k = refl
text_lt-connex [] (d ∷ ds) h k = cc
text_lt-connex (c ∷ cs) [] h k = cc
text_lt-connex (c ∷ cs) (d ∷ ds) h k = ground (arith, text_lt-connex cs ds)

any-insert_new :
    (f : Text → Bool) (p : Text) (qs : List Text) → any f (insert_new p qs) ≡ (f p || any f qs)
any-insert_new f p [] = refl
any-insert_new f p (q ∷ qs) = ground (arith, text_lt-connex p q, any-insert_new f p qs)

any-sorted_set : (f : Text → Bool) (ps : List Text) → any f (sorted_set ps) ≡ any f ps
any-sorted_set f [] = refl
any-sorted_set f (p ∷ ps) =
    any-insert_new f p (sorted_set ps) ∙ ap (λ b. f p || b) (any-sorted_set f ps)

normalized-ok :
    (prefixes : List Text) (legacy : Text) (ps : List Text)
    → normalize_source_prefixes prefixes legacy ≡ ok ps
    → (ps ≡ or_whole (sorted_set (map clean (given prefixes legacy))))
      × (mixes_whole ps ≡ false)
      × (has_nested ps ≡ false)
unfolding normalize_source_prefixes
normalized-ok prefixes legacy ps h = ground arith

in_or_whole :
    (key : Text) (ps : List Text)
    → ((ps ≡ []) → any (λ p. is_empty p || starts_with key p) ps ≡ true)
    → in_prefixes key (or_whole ps) ≡ in_prefixes key ps
in_or_whole key [] h = sym (h refl)
in_or_whole key (p ∷ ps) h = refl

insert_new-cons : (p : Text) (qs : List Text) → insert_new p qs ≡ [] → ⊥
insert_new-cons p [] h = cc
insert_new-cons p (q ∷ qs) h = elim (Bool-cases (text_lt p q)) [
  | inl e ↦ cc (rw (e, insert_new) at h)
  | inr e ↦ elim (Bool-cases (text_lt q p)) [
    | inl d ↦ cc (rw (e, d, insert_new) at h)
    | inr d ↦ cc (rw (e, d, insert_new) at h)
  ]
]

cleaned-cons :
    (prefixes : List Text) (legacy : Text) → sorted_set (map clean (given prefixes legacy)) ≡ [] → ⊥
cleaned-cons [] legacy = insert_new-cons (clean legacy) []
cleaned-cons (p ∷ ps) legacy = insert_new-cons (clean p) (sorted_set (map clean ps))

-- Where a list of prefixes is accepted as the scope of a source, no key begins with two of the
-- accepted prefixes, and a key is in the accepted scope exactly if it is in that of the
-- prefixes asked for, cleaned of spaces and leading slashes.
pub normalize_source_prefixes-Apart :
    (prefixes : List Text) (legacy : Text) (ps : List Text)
    → normalize_source_prefixes prefixes legacy ≡ ok ps
    → Apart ps
      × ((key : Text) → in_prefixes key ps ≡ in_prefixes key (map clean (given prefixes legacy)))
normalize_source_prefixes-Apart prefixes legacy ps h =
    let wanted = map clean (given prefixes legacy) in
    let (same, whole, flat) = normalized-ok prefixes legacy ps h in
    (
      flat-Apart ps
          (subst IsSorted (sym same)
            (or_whole-IsSorted (sorted_set wanted) (sorted_set-IsSorted wanted)))
          flat,
      λ key.
          ap (in_prefixes key) same
          ∙ in_or_whole key (sorted_set wanted) (λ e. absurd (cleaned-cons prefixes legacy e))
          ∙ any-sorted_set (λ p. is_empty p || starts_with key p) wanted,
    )
