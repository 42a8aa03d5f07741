-- ===== src/Multipart/Copy.antt =====
-- `transfer_object` of app/real_worker.py: the copy of one object, which a later run takes up at the part
-- where an earlier one was interrupted. S3 and OCI Object Storage are a parameter, with what their
-- documentation says of multipart uploads; each run of the copy has a number, so that a request may fail
-- in one run and succeed in the next. Metadata, tags, progress and throttling are left out.
pub mod Slices
pub mod Steps
pub mod Delivers
pub mod Completes
mod Tests
use copy_s3_to_oci.Base.{
  ℕ, zero, suc, ◌+◌, ◌*◌, ◌≡◌, ◌⊎◌, Bool, true, false, not, Option, none, some, List, [], ◌∷◌, ◌++◌,
  ◌==◌, leb, take, drop, length, is_none, if◌then◌else◌,
}
use copy_s3_to_oci.Schema.{ObjectState}
use copy_s3_to_oci.Multipart.{
  RemotePart, expected_part_size, effective_multipart_part_size, part_count,
  reusable_multipart_part, direct_sha_limit,
}

abbrev pub or_empty : Option (List ℕ) → List ℕ
or_empty none = []
or_empty (some bytes) = bytes

-- The parts that are committed, in their order.
abbrev pub assembled : (ℕ → Option (List ℕ)) → List (ℕ × ℕ) → List ℕ
assembled held [] = []
assembled held ((number, etag) ∷ parts) = or_empty (held number) ++ assembled held parts

-- `result[number]` of the listed parts.
abbrev pub part_in : List (ℕ × RemotePart) → ℕ → Option RemotePart
part_in [] number = none
part_in ((n, part) ∷ parts) number = if n == number then some part else part_in parts number

-- The two stores, at the runs 0, 1, 2 ... of a copy. `held` is what an upload has accepted as a part,
-- `content` the object at the destination, `is_open` whether an upload takes parts. A request that raises may have been carried out.
pub record Cloud (source : List ℕ) : Type 1 where
  pub State : Type 0
  pub opens : ℕ → Bool
  pub read : ℕ → ℕ → ℕ → Option (List ℕ)
  pub list_parts : ℕ → State → ℕ → Option (List (ℕ × RemotePart))
  pub create_upload : ℕ → State → Option ℕ × State
  pub upload_part : ℕ → State → ℕ → ℕ → List ℕ → Option ℕ × State
  pub commit_upload : ℕ → State → ℕ → List (ℕ × ℕ) → Bool × State
  pub put_object : ℕ → State → List ℕ → Bool × State
  pub held : State → ℕ → ℕ → Option (List ℕ)
  pub content : State → Option (List ℕ)
  pub is_open : State → ℕ → Bool
  pub read_slice :
      (run start size : ℕ) {bytes : List ℕ}
      → read run start size ≡ some bytes
      → bytes ≡ take size (drop start source)
  pub listed_held :
      (run : ℕ) (s : State) (upload number : ℕ) {parts : List (ℕ × RemotePart)} {part : RemotePart}
      → list_parts run s upload ≡ some parts
      → part_in parts number ≡ some part
      → (bytes : List ℕ) × (held s upload number ≡ some bytes)
  pub created_empty :
      (run : ℕ) (s : State) {upload : ℕ}
      → (create_upload run s).0 ≡ some upload
      → (number : ℕ) → held (create_upload run s).1 upload number ≡ none
  pub created_open :
      (run : ℕ) (s : State) {upload : ℕ}
      → (create_upload run s).0 ≡ some upload
      → is_open (create_upload run s).1 upload ≡ true
  pub listed_open :
      (run : ℕ) (s : State) (upload : ℕ) {parts : List (ℕ × RemotePart)}
      → list_parts run s upload ≡ some parts
      → is_open s upload ≡ true
  pub uploaded_open :
      (run : ℕ) (s : State) (upload number : ℕ) (bytes : List ℕ)
      → is_open s upload ≡ true
      → is_open (upload_part run s upload number bytes).1 upload ≡ true
  pub uploaded_keeps :
      (run : ℕ) (s : State) (upload number : ℕ) (bytes : List ℕ) (other : ℕ)
      → (held (upload_part run s upload number bytes).1 upload other ≡ held s upload other)
        ⊎ ((other ≡ number)
            × (held (upload_part run s upload number bytes).1 upload other ≡ some bytes))
  pub uploaded_held :
      (run : ℕ) (s : State) (upload number : ℕ) (bytes : List ℕ) {etag : ℕ}
      → (upload_part run s upload number bytes).0 ≡ some etag
      → held (upload_part run s upload number bytes).1 upload number ≡ some bytes
  pub committed_content :
      (run : ℕ) (s : State) (upload : ℕ) (parts : List (ℕ × ℕ))
      → (commit_upload run s upload parts).0 ≡ true
      → content (commit_upload run s upload parts).1 ≡ some (assembled (held s upload) parts)
  pub commit_keeps :
      (run : ℕ) (s : State) (upload : ℕ) (parts : List (ℕ × ℕ)) (number : ℕ)
      → (held (commit_upload run s upload parts).1 upload number ≡ held s upload number)
        ⊎ (held (commit_upload run s upload parts).1 upload number ≡ none)
  pub put_keeps :
      (run : ℕ) (s : State) (bytes : List ℕ) (upload number : ℕ)
      → held (put_object run s bytes).1 upload number ≡ held s upload number
  pub put_content :
      (run : ℕ) (s : State) (bytes : List ℕ)
      → (put_object run s bytes).0 ≡ true
      → content (put_object run s bytes).1 ≡ some bytes

-- The columns of ObjectRecord by which a copy is taken up again, and what the hash `full_digest` of the
-- running copy has read.
pub record Checkpoint : Type 0 where
  pub state : ObjectState
  pub upload_id : Option ℕ
  pub part_size : Option ℕ
  pub evidence : ℕ → Option ℕ
  pub source_checksum : Option ℕ
  pub digested : List ℕ

abbrev pub no_evidence : ℕ → Option ℕ
no_evidence number = none

abbrev pub noted : ℕ → ℕ → (ℕ → Option ℕ) → ℕ → Option ℕ
noted number sha evidence other = if other == number then some sha else evidence other

abbrev pub may_copy : ObjectState → Bool
may_copy ObjectState.restored = true
may_copy ObjectState.transferring = true
may_copy _ = false

abbrev pub reused : Option RemotePart → Option ℕ → ℕ → Option ℕ
unfolding reusable_multipart_part
reused none evidence expected = none
reused (some r) evidence expected =
    if reusable_multipart_part (some r) evidence expected then some r.etag else none

-- `sha256` is a parameter too. `size` is `size_bytes`, `configured` the configured size of a part.
module _ {source : List ℕ} (c : Cloud source) (sha256 : List ℕ → ℕ) (size configured : ℕ) where
  open c use {State, opens, read, list_parts, create_upload, upload_part, commit_upload, put_object}

  abbrev pub after_upload : ℕ → ℕ → Checkpoint → Option ℕ × State → Option ℕ × Checkpoint × State
  after_upload number sha cp (none, s) = (none, cp, s)
  after_upload number sha cp (some etag, s) =
      (some etag, record cp { evidence = noted number sha cp.evidence }, s)

  abbrev pub send_part :
      ℕ → ℕ → ℕ → Checkpoint → State → Option (List ℕ) → ℕ → Option ℕ × Checkpoint × State
  send_part run upload number cp s none expected = (none, cp, s)
  send_part run upload number cp s (some bytes) expected =
      if length bytes == expected
      then after_upload number (sha256 bytes) (record cp { digested = cp.digested ++ bytes })
          (upload_part run s upload number bytes)
      else (none, cp, s)

  -- The part after the first `k`: its entry for the commit, or `none` where the run is interrupted.
  unfoldable pub copy_part :
      ℕ → ℕ → ℕ → List (ℕ × RemotePart) → ℕ → Checkpoint → State → Option ℕ × Checkpoint × State
  unfolding expected_part_size
  copy_part run upload part remote k cp s =
      let expected = expected_part_size size (suc k) part in
      elim (reused (part_in remote (suc k)) (cp.evidence (suc k)) expected) [
        | some etag ↦ (some etag, cp, s)
        | none ↦ send_part run upload (suc k) cp s (read run (k * part) expected) expected
      ]

  unfoldable pub copy_parts :
      ℕ
      → ℕ
      → ℕ
      → List (ℕ × RemotePart)
      → ℕ
      → ℕ
      → List (ℕ × ℕ)
      → Checkpoint
      → State
      → Option (List (ℕ × ℕ)) × Checkpoint × State
  copy_parts run upload part remote zero k sent cp s = (some sent, cp, s)
  copy_parts run upload part remote (suc left) k sent cp s =
      let (etag, cp', s') = copy_part run upload part remote k cp s in
      elim etag [
        | none ↦ (none, cp', s')
        | some e ↦ copy_parts run upload part remote left (suc k) (sent ++ (suc k, e) ∷ []) cp' s'
      ]

  abbrev pub delivered : Option ℕ → Checkpoint → Checkpoint
  delivered checksum cp = record cp {
    state = ObjectState.transferred;
    upload_id = none;
    source_checksum = checksum;
  }

  -- A copy that skipped accepted parts has read only some of the source.
  abbrev pub full_checksum : List (ℕ × RemotePart) → Checkpoint → Option ℕ
  full_checksum [] cp = some (sha256 cp.digested)
  full_checksum (part ∷ parts) cp = none

  abbrev pub after_commit : List (ℕ × RemotePart) → Checkpoint → Bool × State → Checkpoint × State
  after_commit remote cp (false, s) = (cp, s)
  after_commit remote cp (true, s) = (delivered (full_checksum remote cp) cp, s)

  abbrev pub commit_parts :
      ℕ
      → ℕ
      → List (ℕ × RemotePart)
      → ℕ
      → Option (List (ℕ × ℕ)) × Checkpoint × State
      → Checkpoint × State
  commit_parts run upload remote total (none, cp, s) = (cp, s)
  commit_parts run upload remote total (some sent, cp, s) =
      if length sent == total
      then after_commit remote cp (commit_upload run s upload sent)
      else (cp, s)

  abbrev pub or_effective : Option ℕ → ℕ
  unfolding effective_multipart_part_size
  or_effective none = effective_multipart_part_size size configured
  or_effective (some part) = part

  unfoldable pub send_sized :
      ℕ → ℕ → List (ℕ × RemotePart) → Checkpoint → State → ℕ → Checkpoint × State
  send_sized run upload remote cp s part =
      let total = part_count size part in
      commit_parts run upload remote total (copy_parts run upload part remote total 0 [] cp s)

  unfoldable pub send_all : ℕ → ℕ → List (ℕ × RemotePart) → Checkpoint → State → Checkpoint × State
  unfolding or_effective
  send_all run upload remote cp s = send_sized run upload remote cp s (or_effective cp.part_size)

  abbrev pub after_create : ℕ → Checkpoint → Option ℕ × State → Checkpoint × State
  unfolding effective_multipart_part_size send_all
  after_create run cp (none, s) = (cp, s)
  after_create run cp (some upload, s) =
      send_all run upload []
        (record cp {
          upload_id = some upload;
          part_size = some (effective_multipart_part_size size configured);
          evidence = no_evidence;
        })
        s

  -- An upload that OCI does not know any more is forgotten, and a new one is begun.
  abbrev pub begin_upload : ℕ → Checkpoint → State → Checkpoint × State
  unfolding after_create
  begin_upload run cp s = after_create run cp (create_upload run s)

  abbrev pub resume_upload :
      ℕ → ℕ → Checkpoint → State → Option (List (ℕ × RemotePart)) → Checkpoint × State
  unfolding begin_upload send_all
  resume_upload run upload cp s none =
      begin_upload run (record cp { upload_id = none; evidence = no_evidence }) s
  resume_upload run upload cp s (some remote) = send_all run upload remote cp s

  abbrev pub copy_multipart : ℕ → Checkpoint → State → Option ℕ → Checkpoint × State
  unfolding begin_upload resume_upload
  copy_multipart run cp s none = begin_upload run cp s
  copy_multipart run cp s (some upload) = resume_upload run upload cp s (list_parts run s upload)

  abbrev pub after_put : ℕ → Checkpoint → Bool × State → Checkpoint × State
  after_put sha cp (false, s) = (cp, s)
  after_put sha cp (true, s) =
      (record cp { state = ObjectState.transferred; source_checksum = some sha }, s)

  abbrev pub copy_direct : ℕ → Checkpoint → State → Option (List ℕ) → Checkpoint × State
  copy_direct run cp s none = (cp, s)
  copy_direct run cp s (some bytes) =
      if length bytes == size then after_put (sha256 bytes) cp (put_object run s bytes) else (cp, s)

  unfoldable pub transfer_object : ℕ → Checkpoint × State → Checkpoint × State
  unfolding copy_multipart
  transfer_object run (cp, s) =
      if may_copy cp.state
      then (let started = record cp { state = ObjectState.transferring; digested = [] } in
          if not (opens run)
          then (started, s)
          else if leb size direct_sha_limit
          then copy_direct run started s (read run 0 size)
          else copy_multipart run started s started.upload_id)
      else (cp, s)

  -- The runs of the copy, the last one first.
  unfoldable pub transfer_runs : ℕ → Checkpoint × State → Checkpoint × State
  unfolding transfer_object
  transfer_runs zero start = start
  transfer_runs (suc run) start = transfer_object run (transfer_runs run start)
