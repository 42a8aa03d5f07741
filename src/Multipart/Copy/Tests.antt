-- ===== src/Multipart/Copy/Tests.antt =====
-- A destination that takes parts into one upload at a time, over which a copy is interrupted and taken up.
use copy_s3_to_oci.Base.{
  ℕ, zero, suc, ◌+◌, ◌≤◌, ◌≡◌, ◌⊎◌, inl, inr, refl, sym, ap, ◌∙◌, Bool, true, false, not, ◌&&◌,
  Option, none, some, List, [], ◌∷◌, ◌==◌, arith, take, drop, length, if◌then◌else◌, Bool-cases,
}
use copy_s3_to_oci.Schema.{ObjectState}
use copy_s3_to_oci.Multipart.{RemotePart}
use copy_s3_to_oci.Multipart.Copy.{
  Cloud, Checkpoint, part_in, assembled, transfer_runs, no_evidence,
}
use copy_s3_to_oci.Multipart.Copy.Delivers.{transfer_runs-delivers}
use copy_s3_to_oci.Multipart.Copy.Completes.{IsUp, transfer_runs-completes}

record Stores : Type 0 where
  current : ℕ
  accepted : List (ℕ × List ℕ)
  object : Option (List ℕ)

abbrev payload_of : List (ℕ × List ℕ) → ℕ → Option (List ℕ)
payload_of [] number = none
payload_of ((n, bytes) ∷ parts) number = if n == number then some bytes else payload_of parts number

abbrev listing : List (ℕ × List ℕ) → List (ℕ × RemotePart)
listing [] = []
listing ((n, bytes) ∷ parts) = (n, record { etag = n; size = length bytes }) ∷ listing parts

abbrev held_part : Stores → ℕ → ℕ → Option (List ℕ)
held_part s upload number = if upload == s.current then payload_of s.accepted number else none

-- The second part is refused in run 0, after it was stored.
abbrev store_part : ℕ → Stores → ℕ → ℕ → List ℕ → Option ℕ × Stores
store_part run s upload number bytes =
    if upload == s.current
    then (
      if (run == 0) && (number == 2) then none else some number,
      record s { accepted = (number, bytes) ∷ s.accepted },
    )
    else (none, s)

listing_held :
    (parts : List (ℕ × List ℕ)) (number : ℕ) {r : RemotePart}
    → part_in (listing parts) number ≡ some r
    → (bytes : List ℕ) × (payload_of parts number ≡ some bytes)
listing_held [] number e = cc
listing_held ((n, bytes) ∷ parts) number e = elim (Bool-cases (n == number)) [
  | inl here ↦ (bytes, rw (here, if◌then◌else◌) refl)
  | inr there ↦
      let (found, eq) = listing_held parts number (sym (rw (there, if◌then◌else◌) refl) ∙ e) in
      (found, rw (there, if◌then◌else◌) eq)
]

store_part_keeps :
    (run : ℕ) (s : Stores) (upload number : ℕ) (bytes : List ℕ) (other : ℕ)
    → (held_part (store_part run s upload number bytes).1 upload other ≡ held_part s upload other)
      ⊎ ((other ≡ number)
          × (held_part (store_part run s upload number bytes).1 upload other ≡ some bytes))
store_part_keeps run s upload number bytes other = elim (Bool-cases (upload == s.current)) [
  | inr closed ↦
      inl (rw (closed, store_part, if◌then◌else◌) (rw (closed, held_part, if◌then◌else◌) refl))
  | inl open_ ↦ elim (Bool-cases (number == other)) [
    | inl same ↦ inr (
      ground arith,
      rw (open_, store_part, if◌then◌else◌, held_part) (rw (open_, same, if◌then◌else◌) refl),
    )
    | inr apart ↦
        inl
          (rw (open_, store_part, if◌then◌else◌, held_part) (rw (open_, apart, if◌then◌else◌) refl))
  ]
]

store_part_held :
    (run : ℕ) (s : Stores) (upload number : ℕ) (bytes : List ℕ) {etag : ℕ}
    → (store_part run s upload number bytes).0 ≡ some etag
    → held_part (store_part run s upload number bytes).1 upload number ≡ some bytes
store_part_held run s upload number bytes e = elim (Bool-cases (upload == s.current)) [
  | inr closed ↦ cc
  | inl open_ ↦
      let itself : (number == number) ≡ true = ground arith in
      rw (open_, store_part, if◌then◌else◌, held_part) (rw (open_, itself, if◌then◌else◌) refl)
]

list_parts_held :
    (s : Stores) (upload number : ℕ) {parts : List (ℕ × RemotePart)} {part : RemotePart}
    → (if upload == s.current then some (listing s.accepted) else none) ≡ some parts
    → part_in parts number ≡ some part
    → (bytes : List ℕ) × (held_part s upload number ≡ some bytes)
list_parts_held s upload number {parts} e found = elim (Bool-cases (upload == s.current)) [
  | inl open_ ↦
      let listed : listing s.accepted ≡ parts = cc in
      rw (open_, held_part, if◌then◌else◌)
        (listing_held s.accepted number (ap (λ ps. part_in ps number) listed ∙ found))
  | inr other ↦ cc
]

same_number : {a b : ℕ} → some a ≡ some b → (b == a) ≡ true
same_number e = ground arith

listed_current :
    (b : Bool) (parts : List (ℕ × RemotePart)) {found : List (ℕ × RemotePart)}
    → (if b then some parts else none) ≡ some found
    → b ≡ true
listed_current true parts e = refl
listed_current false parts e = cc

read_bytes : {a b : List ℕ} → some a ≡ some b → a ≡ b
read_bytes e = cc

abbrev cloud : (source : List ℕ) → Cloud source
cloud source = record {
  State = Stores;
  opens = λ run. true;
  read = λ run start size. some (take size (drop start source));
  list_parts = λ run s upload. if upload == s.current then some (listing s.accepted) else none;
  create_upload =
      λ run s. (some (suc s.current), record s { current = suc s.current; accepted = [] });
  upload_part = store_part;
  commit_upload = λ run s upload parts.
      (true, record s { object = some (assembled (held_part s upload) parts) });
  put_object = λ run s bytes. (not (run == 0), record s { object = some bytes });
  held = held_part;
  content = λ s. s.object;
  is_open = λ s upload. upload == s.current;
  read_slice = λ run start size e. sym (read_bytes e);
  listed_held = λ run s upload number e found. list_parts_held s upload number e found;
  created_empty = λ run s {upload} e number. elim (Bool-cases (upload == suc s.current)) [
    | inl open_ ↦ rw (open_, if◌then◌else◌) refl
    | inr other ↦ rw (other, if◌then◌else◌) refl
  ];
  created_open = λ run s e. same_number e;
  listed_open = λ run s upload e. listed_current (upload == s.current) (listing s.accepted) e;
  uploaded_open = λ run s upload number bytes e. rw (e, store_part, if◌then◌else◌) e;
  uploaded_keeps = store_part_keeps;
  uploaded_held = store_part_held;
  committed_content = λ run s upload parts e. refl;
  commit_keeps = λ run s upload parts number. inl refl;
  put_keeps = λ run s bytes upload number. refl;
  put_content = λ run s bytes e. refl;
}

repeated : ℕ → List ℕ
repeated zero = []
repeated (suc n) = 7 ∷ repeated n

length-take-repeated : (n m : ℕ) → n ≤ m → length (take n (repeated m)) ≡ n
unfolding repeated
length-take-repeated zero m h = refl
length-take-repeated (suc n) zero h = absurd (omega arith)
length-take-repeated (suc n) (suc m) h = ap suc (length-take-repeated n m (omega arith))

length-range-repeated :
    (start n m : ℕ) → start + n ≤ m → length (take n (drop start (repeated m))) ≡ n
unfolding repeated
length-range-repeated zero n m h = length-take-repeated n m (omega arith)
length-range-repeated (suc start) n zero h = absurd (omega arith)
length-range-repeated (suc start) n (suc m) h = length-range-repeated start n m (omega arith)

cloud-IsUp : (run size : ℕ) → IsUp (cloud (repeated size)) (suc run) size
cloud-IsUp run size = record {
  opens = refl;
  reads = λ start n fits.
      (take n (drop start (repeated size)), refl, length-range-repeated start n size fits);
  creates = λ s. (suc s.current, refl);
  uploads = λ s upload number bytes open_. (
    number,
    rw (open_, store_part, if◌then◌else◌)
        (let later : (suc run == 0) ≡ false = ground arith in rw (later, if◌then◌else◌) refl),
  );
  commits = λ s upload parts open_. refl;
  puts = λ s bytes. ground arith;
}

abbrev chosen : Checkpoint
chosen = record {
  state = ObjectState.restored;
  upload_id = none;
  part_size = none;
  evidence = no_evidence;
  source_checksum = none;
  digested = [];
}

abbrev stores : Stores
stores = record { current = 0; accepted = []; object = none }

-- More than the direct limit, in two parts: the run after the interrupted one ends the copy.
transfer_runs-completes_example :
    let (after, final) =
      transfer_runs (cloud (repeated 20000000)) length 20000000 10485760 2 (chosen, stores) in
    (after.state ≡ ObjectState.transferred)
    × (final.object ≡ some (take 20000000 (repeated 20000000)))
transfer_runs-completes_example =
    transfer_runs-completes (cloud (repeated 20000000)) length 20000000 10485760 1 chosen stores
      refl refl (cloud-IsUp 0 20000000)

transfer_runs-delivers_example :
    let (after, final) =
      transfer_runs (cloud (repeated 20000000)) length 20000000 10485760 2 (chosen, stores) in
    (final.object ≡ some (take 20000000 (repeated 20000000)))
    × ((sha : ℕ)
        → after.source_checksum ≡ some sha
        → sha ≡ length (take 20000000 (repeated 20000000)))
transfer_runs-delivers_example =
    transfer_runs-delivers (cloud (repeated 20000000)) length 20000000 10485760 2 chosen stores refl
      refl
      (transfer_runs-completes (cloud (repeated 20000000)) length 20000000 10485760 1 chosen stores
        refl refl (cloud-IsUp 0 20000000)).0
