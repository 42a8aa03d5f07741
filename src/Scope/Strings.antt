-- ===== src/Scope/Strings.antt =====
-- What the scope code uses of Python's str: `strip`, `lstrip`, `startswith`, the order, and `sorted`
-- of a set.
use copy_s3_to_oci.Base.{
  ℕ, Bool, true, false, ◌&&◌, ◌||◌, List, [], ◌∷◌, ◌++◌, ◌==◌, ltb, leb, if◌then◌else◌,
}

abbrev pub Text : Type 0
Text = List ℕ

abbrev pub is_empty : Text → Bool
is_empty [] = true
is_empty (c ∷ cs) = false

abbrev pub is_empty_list : List Text → Bool
is_empty_list [] = true
is_empty_list (p ∷ ps) = false

-- `text.startswith(prefix)`.
abbrev pub starts_with : Text → Text → Bool
starts_with text [] = true
starts_with [] (c ∷ cs) = false
starts_with (d ∷ ds) (c ∷ cs) = d == c && starts_with ds cs

-- `str.isspace` of one code point.
abbrev pub is_space : ℕ → Bool
is_space c =
    leb 9 c && leb c 13
    || leb 28 c && leb c 32
    || c == 133
    || c == 160
    || c == 5760
    || leb 8192 c && leb c 8202
    || c == 8232
    || c == 8233
    || c == 8239
    || c == 8287
    || c == 12288

abbrev pub drop_while : (ℕ → Bool) → Text → Text
drop_while p [] = []
drop_while p (c ∷ cs) = let rest = drop_while p cs in if p c then rest else c ∷ cs

abbrev pub reverse : Text → Text
reverse [] = []
reverse (c ∷ cs) = reverse cs ++ c ∷ []

abbrev pub strip : Text → Text
strip text = reverse (drop_while is_space (reverse (drop_while is_space text)))

-- `value.strip().lstrip("/")`.
abbrev pub clean : Text → Text
clean text = drop_while (λ c. c == 47) (strip text)

-- `a < b`, by code points.
abbrev pub text_lt : Text → Text → Bool
text_lt [] [] = false
text_lt [] (d ∷ ds) = true
text_lt (c ∷ cs) [] = false
text_lt (c ∷ cs) (d ∷ ds) = let rest = text_lt cs ds in ltb c d || c == d && rest

-- Into a sorted list, unless it is there.
abbrev pub insert_new : Text → List Text → List Text
insert_new p [] = p ∷ []
insert_new p (q ∷ qs) =
    let rest = insert_new p qs in
    if text_lt p q then p ∷ q ∷ qs else if text_lt q p then q ∷ rest else q ∷ qs

abbrev pub sorted_set : List Text → List Text
sorted_set [] = []
sorted_set (p ∷ ps) = insert_new p (sorted_set ps)
