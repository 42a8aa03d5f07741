-- ===== src/Simulator/Payload.antt =====
-- `iter_deterministic_range` of app/simulated_data.py. The generator of `deterministic_block`, an
-- extendable hash, is the parameter `block`, from a block's index to its bytes.
pub mod Ranges
use copy_s3_to_oci.Base.{
  ℕ, suc, zero, ◌+◌, ◌-◌, ◌*◌, ◌/◌, ◌%◌, ◌^◌, min, Bool, true, false, ◌||◌, Option, none, some,
  List, [], ◌∷◌, ◌++◌, ltb, leb, ◌==◌, length, take, drop, if◌then◌else◌,
}

abbrev pub Bytes : Type 0
Bytes = List ℕ

abbrev pub block_bytes : ℕ
block_bytes = 1048576

-- `while len(pending) >= chunk_size: yield ...`: the chunks that are full, and what is left over.
-- The fuel is the length of what is pending.
pub full_chunks : ℕ → ℕ → Bytes → List Bytes × Bytes
full_chunks zero chunk pending = ([], pending)
full_chunks (suc fuel) chunk pending =
    let (more, left) = full_chunks fuel chunk (drop chunk pending) in
    if leb chunk (length pending) then (take chunk pending ∷ more, left) else ([], pending)

abbrev pub last_chunk : Bytes → List Bytes
last_chunk [] = []
last_chunk (b ∷ bs) = (b ∷ bs) ∷ []

-- What one turn takes from the block at `position`.
abbrev pub turn : ℕ → ℕ → ℕ
turn position remaining = min remaining (block_bytes - position % block_bytes)

abbrev pub piece : (ℕ → Bytes) → ℕ → ℕ → Bytes
piece block position size =
    take size (drop (position % block_bytes) (block (position / block_bytes)))

-- The loop `while remaining`. The fuel is what remains, since a turn takes at least one byte.
pub stream : (ℕ → Bytes) → ℕ → ℕ → ℕ → ℕ → Bytes → List Bytes
unfolding full_chunks
stream block chunk zero position remaining pending = last_chunk pending
stream block chunk (suc fuel) position remaining pending =
    let size = turn position remaining in
    let grown = pending ++ piece block position size in
    let (chunks, left) = full_chunks (length grown) chunk grown in
    let rest = stream block chunk fuel (position + size) (remaining - size) left in
    if remaining == 0 then last_chunk pending else chunks ++ rest

abbrev pub requested : ℕ → Option ℕ → ℕ
requested available none = available
requested available (some length_) = length_

-- None where the arguments raise ValueError.
unfoldable pub iter_deterministic_range : (ℕ → Bytes) → ℕ → ℕ → Option ℕ → ℕ → Option (List Bytes)
unfolding stream
iter_deterministic_range block size offset length_ chunk =
    let wanted = requested (size - offset) length_ in
    if ltb size offset || ltb (size - offset) wanted || chunk == 0
    then none
    else some (stream block chunk wanted offset wanted [])
