-- ===== src/Restore/Quote.antt =====
-- The keys of a manifest are written by `quote(key, safe="/")` and those of a report are read by
-- `unquote`, both of Python's urllib; a key is its bytes here.
pub mod Inverse
use copy_s3_to_oci.Base.{
  ℕ, ◌+◌, ◌-◌, ◌*◌, ◌/◌, ◌%◌, Bool, true, false, ◌&&◌, ◌||◌, List, [], ◌∷◌, ◌++◌, ◌==◌, leb,
  if◌then◌else◌,
}

-- ASCII letters, digits, and `_.-~/`.
abbrev pub is_safe : ℕ → Bool
is_safe c =
    leb 65 c && leb c 90
    || leb 97 c && leb c 122
    || leb 48 c && leb c 57
    || c == 95
    || c == 46
    || c == 45
    || c == 126
    || c == 47

abbrev pub hex_digit : ℕ → ℕ
hex_digit d = if leb d 9 then 48 + d else 55 + d

unfoldable pub quote_byte : ℕ → List ℕ
quote_byte c = if is_safe c then c ∷ [] else 37 ∷ hex_digit (c / 16) ∷ hex_digit (c % 16) ∷ []

unfoldable pub quote : List ℕ → List ℕ
unfolding quote_byte
quote [] = []
quote (c ∷ cs) = quote_byte c ++ quote cs

abbrev pub is_hex : ℕ → Bool
is_hex c = leb 48 c && leb c 57 || leb 65 c && leb c 70 || leb 97 c && leb c 102

abbrev pub hex_value : ℕ → ℕ
hex_value c = if leb c 57 then c - 48 else if leb c 70 then c - 55 else c - 87

-- An escape that is not one is kept as it is written.
unfoldable pub unquote : List ℕ → List ℕ
unquote [] = []
unquote (c ∷ []) = c ∷ []
unquote (c ∷ d ∷ []) = c ∷ d ∷ []
unquote (c ∷ h ∷ l ∷ cs) =
    let decoded = (16 * hex_value h + hex_value l) ∷ unquote cs in
    let kept = c ∷ unquote (h ∷ l ∷ cs) in if c == 37 && is_hex h && is_hex l then decoded else kept
