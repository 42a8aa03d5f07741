-- ===== src/Restore/Quote/Inverse.antt =====
-- Reading a written key.
use copy_s3_to_oci.Base.{
  ℕ, ◌+◌, ◌*◌, ◌/◌, ◌%◌, ◌<◌, ◌≡◌, refl, ap, ◌∙◌, true, false, List, [], ◌∷◌, ◌++◌, ◌==◌, arith,
  All, Bool-cases, inl, inr,
}
use copy_s3_to_oci.Restore.Quote.{is_safe, hex_digit, quote_byte, quote, is_hex, hex_value, unquote}

unquote_plain : (c : ℕ) (cs : List ℕ) → (c == 37) ≡ false → unquote (c ∷ cs) ≡ c ∷ unquote cs
unfolding unquote
unquote_plain c [] h = refl
unquote_plain c (d ∷ []) h = refl
unquote_plain c (d ∷ e ∷ cs) h = rw (h, unquote) refl

hex_digit-is_hex : (d : ℕ) → d < 16 → is_hex (hex_digit d) ≡ true
hex_digit-is_hex d h = ground arith

hex_value-hex_digit : (d : ℕ) → d < 16 → hex_value (hex_digit d) ≡ d
hex_value-hex_digit d h = ground arith

unquote-escape :
    (d e : ℕ) (cs : List ℕ)
    → d < 16
    → e < 16
    → unquote (37 ∷ hex_digit d ∷ hex_digit e ∷ cs) ≡ (16 * d + e) ∷ unquote cs
unfolding unquote
unquote-escape d e cs hd he =
    rw
      (
        hex_digit-is_hex d hd,
        hex_digit-is_hex e he,
        hex_value-hex_digit d hd,
        hex_value-hex_digit e he,
      )
      refl

unquote-quote_byte : (c : ℕ) (cs : List ℕ) → c < 256 → unquote (quote_byte c ++ cs) ≡ c ∷ unquote cs
unfolding quote_byte
unquote-quote_byte c cs h = elim (Bool-cases (is_safe c)) [
  | inl safe ↦ rw (safe, quote_byte) (unquote_plain c cs (ground arith))
  | inr coded ↦
      rw (coded, quote_byte)
        (unquote-escape (c / 16) (c % 16) cs (omega arith) (omega arith)
          ∙ ap (λ (d : ℕ). d ∷ unquote cs) (omega arith))
]

unquote_nil : unquote [] ≡ []
unfolding unquote
unquote_nil = refl

-- A key of bytes that is quoted for a manifest is read back by the unquoting of a report.
pub unquote-quote : (key : List ℕ) → All (λ c. c < 256) key → unquote (quote key) ≡ key
unfolding quote
unquote-quote [] h = unquote_nil
unquote-quote (c ∷ cs) h = unquote-quote_byte c (quote cs) h.0 ∙ ap (◌∷◌ c) (unquote-quote cs h.1)
