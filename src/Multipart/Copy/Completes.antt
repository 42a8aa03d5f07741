-- ===== src/Multipart/Copy/Completes.antt =====
-- Runs of `transfer_object` (app/real_worker.py) in which the stores answer.
use native.Mathlib.Nat.{div-lt_iff_lt-mul}
use copy_s3_to_oci.Base.{
  ℕ, zero, suc, ◌+◌, ◌-◌, ◌*◌, ◌/◌, ◌≤◌, ◌<◌, ◌≡◌, inl, inr, refl, sym, ap, subst, true, Option,
  none, some, List, [], ◌∷◌, ◌++◌, ◌==◌, arith, leb, take, length, length-append, if◌then◌else◌,
  Bool-cases, Option-cases,
}
use copy_s3_to_oci.Schema.{ObjectState}
use copy_s3_to_oci.Multipart.{
  RemotePart, expected_part_size, effective_multipart_part_size, part_count, direct_sha_limit,
}
use copy_s3_to_oci.Multipart.Copy.Delivers.{
  IsResumable, fresh-IsResumable, transfer_runs-IsResumable, transfer_object-IsResumable,
}
use copy_s3_to_oci.Multipart.Copy.{
  transfer_runs, Cloud, Checkpoint, part_in, reused, copy_part, copy_parts, commit_parts,
  or_effective, send_sized, send_all, after_create, begin_upload, resume_upload, copy_multipart,
  may_copy, transfer_object,
}

part_starts : (size part k : ℕ) → 0 < part → k < part_count size part → k * part ≤ size
unfolding part_count
part_starts size part k pos below = elim (Bool-cases (leb (suc k * part) (size + part - 1))) [
  | inl e ↦ ground arith
  | inr e ↦
      let bound : size + part - 1 < suc k * part = ground arith in
      let short : (size + part - 1) / part < suc k = (div-lt_iff_lt-mul pos).1 bound in
      absurd (omega arith)
]

-- Every request of the run is answered: reads within the object in full, and writes to an open upload.
pub record IsUp {source : List ℕ} (c : Cloud source) (run size : ℕ) : Type 0 where
  pub opens : c.opens run ≡ true
  pub reads :
      (start n : ℕ)
      → start + n ≤ size
      → (bytes : List ℕ) × (c.read run start n ≡ some bytes) × (length bytes ≡ n)
  pub creates : (s : c.State) → (upload : ℕ) × ((c.create_upload run s).0 ≡ some upload)
  pub uploads :
      (s : c.State) (upload number : ℕ) (bytes : List ℕ)
      → c.is_open s upload ≡ true
      → (etag : ℕ) × ((c.upload_part run s upload number bytes).0 ≡ some etag)
  pub commits :
      (s : c.State) (upload : ℕ) (parts : List (ℕ × ℕ))
      → c.is_open s upload ≡ true
      → (c.commit_upload run s upload parts).0 ≡ true
  pub puts : (s : c.State) (bytes : List ℕ) → (c.put_object run s bytes).0 ≡ true

module _ {source : List ℕ} (c : Cloud source) (sha256 : List ℕ → ℕ) (size configured run : ℕ)
    (up : IsUp c run size) where
  part_ends :
      (part k : ℕ)
      → 0 < part
      → k < part_count size part
      → k * part + expected_part_size size (suc k) part ≤ size
  unfolding expected_part_size
  part_ends part k pos below = omega (arith, part_starts size part k pos below)

  copy_part-some :
      (upload part : ℕ) (remote : List (ℕ × RemotePart)) (k : ℕ) (cp : Checkpoint) (s : c.State)
      → 0 < part
      → k < part_count size part
      → c.is_open s upload ≡ true
      → (etag : ℕ) × ((copy_part c sha256 size configured run upload part remote k cp s).0
          ≡ some etag)
        × (c.is_open (copy_part c sha256 size configured run upload part remote k cp s).2 upload
            ≡ true)
  unfolding copy_part
  copy_part-some upload part remote k cp s pos below open_ =
      let expected = expected_part_size size (suc k) part in
      elim (Option-cases (reused (part_in remote (suc k)) (cp.evidence (suc k)) expected)) [
        | inr (etag, kept) ↦ (etag, rw (kept, copy_part) refl, rw (kept, copy_part) open_)
        | inl fresh ↦
            let (bytes, got, long) = up.reads (k * part) expected (part_ends part k pos below) in
            let (etag, sent) = up.uploads s upload (suc k) bytes open_ in
            let full : (length bytes == expected) ≡ true = ground arith in
            (
              etag,
              rw (fresh, got, full, sent, copy_part) refl,
              rw (fresh, got, full, sent, copy_part)
                  (c.uploaded_open run s upload (suc k) bytes open_),
            )
      ]

  copy_parts-some :
      (upload part : ℕ) (remote : List (ℕ × RemotePart)) (left k : ℕ) (sent : List (ℕ × ℕ))
      (cp : Checkpoint) (s : c.State)
      → 0 < part
      → k + left ≤ part_count size part
      → c.is_open s upload ≡ true
      → (all : List (ℕ × ℕ)) × ((copy_parts c sha256 size configured run upload part remote left k
            sent cp s).0
          ≡ some all)
        × (length all ≡ length sent + left)
        × (c.is_open
              (copy_parts c sha256 size configured run upload part remote left k sent cp s).2
              upload
            ≡ true)
  unfolding copy_parts
  copy_parts-some upload part remote zero k sent cp s pos fits open_ =
      (sent, refl, omega arith, open_)
  copy_parts-some upload part remote (suc left) k sent cp s pos fits open_ =
      let r = copy_part c sha256 size configured run upload part remote k cp s in
      let (etag, accepted, open_r) =
        copy_part-some upload part remote k cp s pos (omega arith) open_ in
      let (all, e, long, ended) =
        copy_parts-some upload part remote left (suc k) (sent ++ (suc k, etag) ∷ []) r.1 r.2 pos
          (omega arith) open_r in
      (
        all,
        rw (accepted, copy_parts) e,
        omega (arith, length-append sent ((suc k, etag) ∷ [])),
        rw (accepted, copy_parts) ended,
      )

  send_all-ends :
      (upload part : ℕ) (remote : List (ℕ × RemotePart)) (cp : Checkpoint) (s : c.State)
      → cp.part_size ≡ some part
      → 0 < part
      → c.is_open s upload ≡ true
      → (send_all c sha256 size configured run upload remote cp s).0.state ≡ ObjectState.transferred
  unfolding send_all send_sized
  send_all-ends upload part remote cp s sized pos open_ =
      let total = part_count size part in
      let copied = copy_parts c sha256 size configured run upload part remote total 0 [] cp s in
      let (all, e, long, ended) =
        copy_parts-some upload part remote total 0 [] cp s pos (omega arith) open_ in
      let full : (length all == total) ≡ true = ground arith in
      let done = up.commits copied.2 upload all ended in
      subst
        (λ p.
          (send_sized c sha256 size configured run upload remote cp s p).0.state
          ≡ ObjectState.transferred)
        (sym (ap (or_effective c sha256 size configured) sized))
        (rw (e, full, done, commit_parts) refl)

  after_create-ends :
      (cp : Checkpoint) (s : c.State)
      → (after_create c sha256 size configured run cp (c.create_upload run s)).0.state
        ≡ ObjectState.transferred
  unfolding after_create effective_multipart_part_size
  after_create-ends cp s =
      let (upload, made) = up.creates s in
      rw (made, after_create)
        (send_all-ends upload (effective_multipart_part_size size configured) [] _ _ refl
          (omega arith) (c.created_open run s made))

  resume_upload-ends :
      (upload part : ℕ) (cp : Checkpoint) (s : c.State) (found : Option (List (ℕ × RemotePart)))
      → cp.part_size ≡ some part
      → 0 < part
      → c.list_parts run s upload ≡ found
      → (resume_upload c sha256 size configured run upload cp s found).0.state
        ≡ ObjectState.transferred
  unfolding resume_upload begin_upload
  resume_upload-ends upload part cp s none sized pos listed = after_create-ends _ s
  resume_upload-ends upload part cp s (some remote) sized pos listed =
      send_all-ends upload part remote cp s sized pos (c.listed_open run s upload listed)

  copy_multipart-ends :
      (cp : Checkpoint) (s : c.State) (upload : Option ℕ)
      → ((u : ℕ) → upload ≡ some u → (part : ℕ) × (cp.part_size ≡ some part) × (0 < part))
      → (copy_multipart c sha256 size configured run cp s upload).0.state ≡ ObjectState.transferred
  unfolding copy_multipart begin_upload
  copy_multipart-ends cp s none h = after_create-ends cp s
  copy_multipart-ends cp s (some upload) h =
      let (part, sized, pos) = h upload refl in
      resume_upload-ends upload part cp s (c.list_parts run s upload) sized pos refl

  transfer_object-ends :
      (cp : Checkpoint) (s : c.State)
      → IsResumable c sha256 size configured (cp, s)
      → (transfer_object c sha256 size configured run (cp, s)).0.state ≡ ObjectState.transferred
  unfolding transfer_object
  transfer_object-ends cp s h = elim h.lively [
    | inr arrived ↦ rw (ap may_copy arrived, if◌then◌else◌) arrived
    | inl open_ ↦ elim (Bool-cases (leb size direct_sha_limit)) [
      | inl small ↦
          let (bytes, got, long) = up.reads 0 size (omega arith) in
          let full : (length bytes == size) ≡ true = ground arith in
          rw (open_, up.opens, small, got, full, up.puts s bytes, if◌then◌else◌) refl
      | inr large ↦
          rw (open_, up.opens, large, if◌then◌else◌)
            (copy_multipart-ends (record cp { state = ObjectState.transferring; digested = [] }) s
              cp.upload_id
              (λ u named. let (part, sized, pos, sliced) = h.resumes u named in (part, sized, pos)))
    ]
  ]

-- A run whose requests are all answered ends the copy: whatever interrupted the runs before it,
-- after it the object is transferred and the first size_bytes bytes of the source are at the
-- destination.
pub transfer_runs-completes :
    {source : List ℕ} (c : Cloud source) (sha256 : List ℕ → ℕ) (size configured runs : ℕ)
    (cp : Checkpoint) (s : c.State)
    → cp.state ≡ ObjectState.restored
    → cp.upload_id ≡ none
    → IsUp c runs size
    → let (after, stores) = transfer_runs c sha256 size configured (suc runs) (cp, s) in
      (after.state ≡ ObjectState.transferred) × (c.content stores ≡ some (take size source))
unfolding transfer_runs
transfer_runs-completes c sha256 size configured runs cp s fresh unnamed up =
    let before = transfer_runs c sha256 size configured runs (cp, s) in
    let ready =
      transfer_runs-IsResumable c sha256 size configured runs (cp, s)
        (fresh-IsResumable c sha256 size configured cp s fresh unnamed) in
    let ended = transfer_object-ends c sha256 size configured runs up before.0 before.1 ready in
    (
      ended,
      ((transfer_object-IsResumable c sha256 size configured runs before ready).arrived ended).0,
    )
