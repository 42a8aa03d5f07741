-- ===== src/Simulator/Payload/Ranges.antt =====
-- The bytes of a stream, joined.
use copy_s3_to_oci.Base.{
  ℕ, suc, zero, ◌+◌, ◌-◌, ◌/◌, ◌%◌, ◌≤◌, ◌<◌, ◌≡◌, refl, sym, ap, ◌∙◌, false, Option, none, some,
  List, [], ◌∷◌, ◌++◌, arith, ltb, leb, ◌==◌, length, take, drop, take-append-drop, get_elem?,
  if◌then◌else◌, Bool-cases, inl, inr,
}
use copy_s3_to_oci.Simulator.Payload.{
  Bytes, block_bytes, full_chunks, last_chunk, turn, piece, stream, requested,
  iter_deterministic_range,
}

abbrev pub join : List Bytes → Bytes
join [] = []
join (c ∷ cs) = c ++ join cs

-- The byte at a position of the object: that of its block.
abbrev pub or_zero : Option ℕ → ℕ
or_zero none = 0
or_zero (some b) = b

abbrev pub byte_at : (ℕ → Bytes) → ℕ → ℕ
byte_at block position =
    or_zero (get_elem? (block (position / block_bytes)) (position % block_bytes))

-- The bytes of positions `position` to `position + size - 1`, one by one.
abbrev pub bytes_from : (ℕ → Bytes) → ℕ → ℕ → Bytes
bytes_from block position zero = []
bytes_from block position (suc size) = byte_at block position ∷ bytes_from block (position + 1) size

append_assoc : (a b c : Bytes) → (a ++ b) ++ c ≡ a ++ (b ++ c)
append_assoc [] b c = refl
append_assoc (x ∷ a) b c = ap (◌∷◌ x) (append_assoc a b c)

join-append : (xs ys : List Bytes) → join (xs ++ ys) ≡ join xs ++ join ys
join-append [] ys = refl
join-append (x ∷ xs) ys = ap (◌++◌ x) (join-append xs ys) ∙ sym (append_assoc x (join xs) (join ys))

full_chunks-join :
    (fuel chunk : ℕ) (pending : Bytes)
    → let (chunks, left) = full_chunks fuel chunk pending in join chunks ++ left ≡ pending
unfolding full_chunks
full_chunks-join zero chunk pending = refl
full_chunks-join (suc fuel) chunk pending = elim (Bool-cases (leb chunk (length pending))) [
  | inl e ↦
      rw (e, if◌then◌else◌)
        (append_assoc (take chunk pending) _ _
          ∙ ap (◌++◌ (take chunk pending)) (full_chunks-join fuel chunk (drop chunk pending))
          ∙ take-append-drop chunk pending)
  | inr e ↦ rw (e, if◌then◌else◌) refl
]

take-drop :
    (r size : ℕ) (xs : Bytes)
    → r < length xs
    → take (suc size) (drop r xs) ≡ or_zero (get_elem? xs r) ∷ take size (drop (suc r) xs)
take-drop r size [] h = absurd (omega (arith, h))
take-drop zero size (x ∷ xs) h = refl
take-drop (suc r) size (x ∷ xs) h = take-drop r size xs (omega (arith, h))

append-nil : (bs : Bytes) → bs ++ [] ≡ bs
append-nil [] = refl
append-nil (b ∷ bs) = ap (◌∷◌ b) (append-nil bs)

last-join : (pending : Bytes) → join (last_chunk pending) ≡ pending
last-join [] = refl
last-join (b ∷ bs) = append-nil (b ∷ bs)

bytes_from-append :
    (block : ℕ → Bytes) (a b position : ℕ)
    → bytes_from block position (a + b)
      ≡ bytes_from block position a ++ bytes_from block (position + a) b
bytes_from-append block zero b position =
    ap (λ n. bytes_from block position n) (omega arith)
    ∙ ap (λ n. bytes_from block n b) (omega arith)
bytes_from-append block (suc a) b position =
    let sum : suc a + b ≡ suc (a + b) = omega arith in
    let shift : position + 1 + a ≡ position + suc a = omega arith in
    ap (bytes_from block position) sum
    ∙ ap (◌∷◌ (byte_at block position)) (
        bytes_from-append block a b (position + 1)
        ∙ ap (λ n. bytes_from block (position + 1) a ++ bytes_from block n b) shift)

the_mod :
    (position size : ℕ)
    → 1 ≤ size
    → size + 1 ≤ 1048576 - position % 1048576
    → suc (position % 1048576) ≡ (position + 1) % 1048576
the_mod position size some_ h = omega (arith, some_, h)

the_div :
    (position size : ℕ)
    → 1 ≤ size
    → size + 1 ≤ 1048576 - position % 1048576
    → position / 1048576 ≡ (position + 1) / 1048576
the_div position size some_ h = omega (arith, some_, h)

module _ (block : ℕ → Bytes) (full : (i : ℕ) → length (block i) ≡ 1048576) where
  next-place :
      (position size : ℕ)
      → 1 ≤ size
      → size + 1 ≤ 1048576 - position % 1048576
      → drop (suc (position % 1048576)) (block (position / 1048576))
        ≡ drop ((position + 1) % 1048576) (block ((position + 1) / 1048576))
  next-place position size some_ h =
      ap (λ r. drop r (block (position / 1048576))) (the_mod position size some_ h)
      ∙ ap (λ q. drop ((position + 1) % 1048576) (block q)) (the_div position size some_ h)

  -- Inside one block, the piece is the bytes one by one.
  piece-bytes :
      (size position : ℕ)
      → size ≤ 1048576 - position % 1048576
      → piece block position size ≡ bytes_from block position size
  piece-bytes zero position h = refl
  piece-bytes (suc zero) position h =
      take-drop (position % 1048576) 0 (block (position / 1048576))
        (omega (arith, h, full (position / 1048576)))
      ∙ refl
  piece-bytes (suc (suc size)) position h =
      take-drop (position % 1048576) (suc size) (block (position / 1048576))
        (omega (arith, h, full (position / 1048576)))
      ∙ ap (λ xs. byte_at block position ∷ take (suc size) xs)
          (next-place position (suc size) (omega arith) (omega (arith, h)))
      ∙ ap (◌∷◌ (byte_at block position)) (
          piece-bytes (suc size) (position + 1)
            (omega (arith, h, the_mod position (suc size) (omega arith) (omega (arith, h)))))

  -- One turn: what was pending and the piece stay in order, and the rest follows.
  turn-join :
      (position size rest : ℕ) (chunk : ℕ) (pending : Bytes) (later : List Bytes)
      → size ≤ 1048576 - position % 1048576
      → let grown = pending ++ piece block position size in
        let (chunks, left) = full_chunks (length grown) chunk grown in
        join later ≡ left ++ bytes_from block (position + size) rest
        → join (chunks ++ later) ≡ pending ++ bytes_from block position (size + rest)
  turn-join position size rest chunk pending later inside e =
      let grown = pending ++ piece block position size in
      let (chunks, left) = full_chunks (length grown) chunk grown in
      let tail = bytes_from block (position + size) rest in
      join-append chunks later
      ∙ ap (◌++◌ (join chunks)) e
      ∙ sym (append_assoc (join chunks) left tail)
      ∙ ap (λ bs. bs ++ tail) (full_chunks-join (length grown) chunk grown)
      ∙ append_assoc pending (piece block position size) tail
      ∙ ap (λ bs. pending ++ (bs ++ tail)) (piece-bytes size position inside)
      ∙ ap (◌++◌ pending) (sym (bytes_from-append block size rest position))

  stream-join :
      (chunk fuel position remaining : ℕ) (pending : Bytes)
      → remaining ≤ fuel
      → join (stream block chunk fuel position remaining pending)
        ≡ pending ++ bytes_from block position remaining
  unfolding stream
  stream-join chunk zero position remaining pending h =
      let none_left : 0 ≡ remaining = omega (arith, h) in
      last-join pending
      ∙ sym (append-nil pending)
      ∙ ap (λ n. pending ++ bytes_from block position n) none_left
  stream-join chunk (suc fuel) position remaining pending h = elim (Bool-cases (remaining == 0)) [
    | inl e ↦
        let none_left : 0 ≡ remaining = ground arith in
        rw (e, if◌then◌else◌)
          (last-join pending
            ∙ sym (append-nil pending)
            ∙ ap (λ n. pending ++ bytes_from block position n) none_left)
    | inr e ↦
        let size = turn position remaining in
        let inside : size ≤ 1048576 - position % 1048576 = omega arith in
        let split : size + (remaining - size) ≡ remaining = omega arith in
        let less : remaining - size ≤ fuel = ground arith in
        rw (e, if◌then◌else◌)
          (turn-join position size (remaining - size) chunk pending _ inside
              (stream-join chunk fuel (position + size) (remaining - size) _ less)
            ∙ ap (λ n. pending ++ bytes_from block position n) split)
  ]

valid-range :
    (block : ℕ → Bytes) (size offset chunk : ℕ) (length_ : Option ℕ)
    → offset ≤ size
    → requested (size - offset) length_ ≤ size - offset
    → 1 ≤ chunk
    → iter_deterministic_range block size offset length_ chunk
      ≡ some (
          stream block chunk
            (requested (size - offset) length_)
            offset
            (requested (size - offset) length_)
            [])
unfolding iter_deterministic_range
valid-range block size offset chunk length_ inside fits some_ =
    let a : ltb size offset ≡ false = ground arith in
    let b : ltb (size - offset) (requested (size - offset) length_) ≡ false = ground arith in
    let c : (chunk == 0) ≡ false = ground arith in rw (a, b, c) refl

-- A range that lies within a simulated object, read in chunks of any positive size, is
-- produced, and its chunks joined are the object's bytes at the positions of the range, one by
-- one in order, where every generated block has 1,048,576 bytes.
pub iter_deterministic_range-join :
    (block : ℕ → Bytes) (size offset chunk : ℕ) (length_ : Option ℕ)
    → ((i : ℕ) → length (block i) ≡ block_bytes)
    → offset ≤ size
    → requested (size - offset) length_ ≤ size - offset
    → 1 ≤ chunk
    → (chunks : List Bytes) × (iter_deterministic_range block size offset length_ chunk
        ≡ some chunks)
      × (join chunks ≡ bytes_from block offset (requested (size - offset) length_))
iter_deterministic_range-join block size offset chunk length_ full inside fits some_ =
    let wanted = requested (size - offset) length_ in
    (
      stream block chunk wanted offset wanted [],
      valid-range block size offset chunk length_ inside fits some_,
      stream-join block full chunk wanted offset wanted [] (omega arith),
    )
