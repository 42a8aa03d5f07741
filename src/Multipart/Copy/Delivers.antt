-- ===== src/Multipart/Copy/Delivers.antt =====
-- The checkpoint and the stores of `transfer_object` (app/real_worker.py) between its runs.
use copy_s3_to_oci.Base.{
  ℕ, zero, suc, ◌<◌, ◌≡◌, ◌⊎◌, inl, inr, refl, sym, ap, subst, ◌∙◌, true, Option, none, some, List,
  [], ◌∷◌, ◌==◌, arith, leb, take, length, if◌then◌else◌, Bool-cases, Option-cases,
}
use copy_s3_to_oci.Schema.{ObjectState}
use copy_s3_to_oci.Multipart.{
  RemotePart, effective_multipart_part_size, part_count, direct_sha_limit,
}
use copy_s3_to_oci.Multipart.Copy.{
  Cloud, Checkpoint, part_in, copy_parts, full_checksum, commit_parts, or_effective, send_all,
  send_sized, after_create, begin_upload, resume_upload, copy_multipart, copy_direct, may_copy,
  transfer_object, transfer_runs,
}
use copy_s3_to_oci.Multipart.Copy.Slices.{joined-part_count}
use copy_s3_to_oci.Multipart.Copy.Steps.{IsSliced, IsHeld, IsEnd, copy_parts-IsEnd}

same_some : {a b : ℕ} {o : Option ℕ} → o ≡ some a → o ≡ some b → a ≡ b
same_some e f = cc

module _ {source : List ℕ} (c : Cloud source) (sha256 : List ℕ → ℕ) (size configured : ℕ) where
  open c use {
    State, opens, read, list_parts, create_upload, commit_upload, put_object, held, content,
    read_slice, listed_held, created_empty, committed_content, commit_keeps, put_keeps, put_content,
  }

  -- A checkpoint that a run may take up: an upload it names holds slices of the source, and an object
  -- that is transferred has its bytes at the destination, and their checksum where it has one.
  pub record IsResumable (r : Checkpoint × State) : Type 0 where
    pub lively : (may_copy r.0.state ≡ true) ⊎ (r.0.state ≡ ObjectState.transferred)
    pub arrived :
        r.0.state ≡ ObjectState.transferred
        → (content r.1 ≡ some (take size source))
          × ((sha : ℕ) → r.0.source_checksum ≡ some sha → sha ≡ sha256 (take size source))
    pub resumes :
        (upload : ℕ)
        → r.0.upload_id ≡ some upload
        → (part : ℕ) × (r.0.part_size ≡ some part)
          × (0 < part)
          × IsSliced c sha256 size configured part 0 upload r.1

  ongoing-IsResumable :
      (part upload : ℕ) (cp : Checkpoint) (s : State)
      → cp.state ≡ ObjectState.transferring
      → cp.upload_id ≡ some upload
      → cp.part_size ≡ some part
      → 0 < part
      → IsSliced c sha256 size configured part 0 upload s
      → IsResumable (cp, s)
  ongoing-IsResumable part upload cp s busy named sized pos h = record {
    lively = inl (rw busy refl);
    arrived = λ bad. cc;
    resumes = λ u found. (
      part,
      sized,
      pos,
      subst (λ v. IsSliced c sha256 size configured part 0 v s) (same_some named found) h,
    );
  }

  committed-IsSliced :
      (part run upload : ℕ) (s : State) (sent : List (ℕ × ℕ))
      → IsSliced c sha256 size configured part 0 upload s
      → IsSliced c sha256 size configured part 0 upload (commit_upload run s upload sent).1
  committed-IsSliced part run upload s sent h k bytes e =
      elim (commit_keeps run s upload sent (suc k)) [
        | inl same ↦ h k bytes (sym same ∙ e)
        | inr gone ↦ cc
      ]

  full_checksum-sha256 :
      (remote : List (ℕ × RemotePart)) (cp : Checkpoint) (bytes : List ℕ) (sha : ℕ)
      → (remote ≡ [] → cp.digested ≡ bytes)
      → full_checksum c sha256 size configured remote cp ≡ some sha
      → sha ≡ sha256 bytes
  full_checksum-sha256 [] cp bytes sha h e = same_some e refl ∙ ap sha256 (h refl)
  full_checksum-sha256 (p ∷ ps) cp bytes sha h e = cc

  commit_parts-IsResumable :
      (part run upload : ℕ) (remote : List (ℕ × RemotePart)) (cp : Checkpoint)
      (found : Option (List (ℕ × ℕ))) (cp' : Checkpoint) (s : State)
      → cp.state ≡ ObjectState.transferring
      → cp.upload_id ≡ some upload
      → cp.part_size ≡ some part
      → 0 < part
      → IsEnd c sha256 size configured part run upload
          (part_count size part)
          cp
          remote
          (found, cp', s)
      → IsResumable (
          commit_parts c sha256 size configured run upload remote
            (part_count size part)
            (found, cp', s))
  commit_parts-IsResumable part run upload remote cp none cp' s busy named sized pos end =
      ongoing-IsResumable part upload cp' s (end.same.0 ∙ busy) (end.same.1 ∙ named)
        (end.same.2 ∙ sized) pos end.sliced
  commit_parts-IsResumable part run upload remote cp (some sent) cp' s busy named sized pos end =
      let open_ =
        ongoing-IsResumable part upload cp' s (end.same.0 ∙ busy) (end.same.1 ∙ named)
          (end.same.2 ∙ sized) pos end.sliced in
      let all = end.sent_all sent refl in
      let whole = joined-part_count source size part pos in
      elim (Bool-cases (length sent == part_count size part)) [
        | inr few ↦ rw (few, if◌then◌else◌) open_
        | inl full ↦ elim (Bool-cases (commit_upload run s upload sent).0) [
          | inr refused ↦
              rw (full, refused, if◌then◌else◌)
                (ongoing-IsResumable part upload cp' _ (end.same.0 ∙ busy) (end.same.1 ∙ named)
                  (end.same.2 ∙ sized) pos (committed-IsSliced part run upload s sent end.sliced))
          | inl done ↦
              rw (full, done, if◌then◌else◌)
                (record {
                  lively = inr refl;
                  arrived = λ _. (
                    committed_content run s upload sent done
                        ∙ ap some (all.0 (held s upload) all.1 ∙ whole),
                    λ sha e.
                        full_checksum-sha256 remote cp' (take size source) sha
                          (λ empty. all.2 empty ∙ whole) e,
                  );
                  resumes = λ u bad. cc;
                })
        ]
      ]

  pos_effective : 0 < effective_multipart_part_size size configured
  unfolding effective_multipart_part_size
  pos_effective = omega arith

  send_all-IsResumable :
      (part run upload : ℕ) (remote : List (ℕ × RemotePart)) (cp : Checkpoint) (s : State)
      → cp.state ≡ ObjectState.transferring
      → cp.upload_id ≡ some upload
      → cp.part_size ≡ some part
      → cp.digested ≡ []
      → 0 < part
      → ((m : ℕ) (r : RemotePart)
          → part_in remote (suc m) ≡ some r
          → IsHeld c sha256 size configured part 0 upload s m)
      → IsSliced c sha256 size configured part 0 upload s
      → IsResumable (send_all c sha256 size configured run upload remote cp s)
  unfolding send_all send_sized
  send_all-IsResumable part run upload remote cp s busy named sized fresh pos listed h =
      let total = part_count size part in
      let copied = copy_parts c sha256 size configured run upload part remote total 0 [] cp s in
      let ended =
        copy_parts-IsEnd c sha256 size configured part run upload total remote total 0 [] cp s
          (omega arith) listed h (λ at all. refl) (λ m below. absurd (omega arith))
          (λ empty. fresh) in
      subst (λ p. IsResumable (send_sized c sha256 size configured run upload remote cp s p))
        (sym (ap (or_effective c sha256 size configured) sized))
        (commit_parts-IsResumable part run upload remote cp copied.0 copied.1 copied.2 busy named
          sized pos ended)

  after_create-IsResumable :
      (run : ℕ) (cp : Checkpoint) (s : State)
      → cp.state ≡ ObjectState.transferring
      → cp.upload_id ≡ none
      → cp.digested ≡ []
      → IsResumable (after_create c sha256 size configured run cp (create_upload run s))
  unfolding after_create
  after_create-IsResumable run cp s busy unnamed fresh =
      elim (Option-cases (create_upload run s).0) [
        | inl raised ↦
            rw (raised, after_create)
              (record { lively = inl (rw busy refl); arrived = λ bad. cc; resumes = λ u bad. cc })
        | inr (upload, made) ↦
            rw (made, after_create)
              (send_all-IsResumable (effective_multipart_part_size size configured) run upload []
                (record cp {
                  upload_id = some upload;
                  part_size = some (effective_multipart_part_size size configured);
                  evidence = λ n. none;
                })
                (create_upload run s).1 busy refl refl fresh pos_effective (λ m r bad. cc)
                (λ k bytes e. cc (created_empty run s made (suc k))))
      ]

  resume_upload-IsResumable :
      (run upload : ℕ) (cp : Checkpoint) (s : State) (found : Option (List (ℕ × RemotePart)))
      → list_parts run s upload ≡ found
      → cp.state ≡ ObjectState.transferring
      → cp.digested ≡ []
      → cp.upload_id ≡ some upload
      → IsResumable (cp, s)
      → IsResumable (resume_upload c sha256 size configured run upload cp s found)
  unfolding resume_upload begin_upload
  resume_upload-IsResumable run upload cp s none e busy fresh named h =
      after_create-IsResumable run (record cp { upload_id = none; evidence = λ n. none }) s busy
        refl fresh
  resume_upload-IsResumable run upload cp s (some remote) e busy fresh named h =
      let (part, sized, pos, sliced) = h.resumes upload named in
      send_all-IsResumable part run upload remote cp s busy named sized fresh pos
        (λ m r found.
          let (bytes, here) = listed_held run s upload (suc m) e found in
          here ∙ ap some (sliced m bytes here))
        sliced

  copy_multipart-IsResumable :
      (run : ℕ) (cp : Checkpoint) (s : State) (upload : Option ℕ)
      → cp.upload_id ≡ upload
      → cp.state ≡ ObjectState.transferring
      → cp.digested ≡ []
      → IsResumable (cp, s)
      → IsResumable (copy_multipart c sha256 size configured run cp s upload)
  unfolding copy_multipart begin_upload
  copy_multipart-IsResumable run cp s none named busy fresh h =
      after_create-IsResumable run cp s busy named fresh
  copy_multipart-IsResumable run cp s (some upload) named busy fresh h =
      resume_upload-IsResumable run upload cp s (list_parts run s upload) refl busy fresh named h

  copy_direct-IsResumable :
      (run : ℕ) (cp : Checkpoint) (s : State) (found : Option (List ℕ))
      → read run 0 size ≡ found
      → IsResumable (cp, s)
      → cp.state ≡ ObjectState.transferring
      → IsResumable (copy_direct c sha256 size configured run cp s found)
  copy_direct-IsResumable run cp s none e h busy = h
  copy_direct-IsResumable run cp s (some bytes) e h busy =
      let whole = read_slice run 0 size e in
      elim (Bool-cases (length bytes == size)) [
        | inr short ↦ rw (short, if◌then◌else◌) h
        | inl full ↦ elim (Bool-cases (put_object run s bytes).0) [
          | inr refused ↦
              rw (full, refused, if◌then◌else◌)
                (record {
                  lively = h.lively;
                  arrived = λ bad. cc;
                  resumes = λ u named.
                      let (part, sized, pos, sliced) = h.resumes u named in
                      (
                        part,
                        sized,
                        pos,
                        λ k b f. sliced k b (sym (put_keeps run s bytes u (suc k)) ∙ f),
                      );
                })
          | inl stored ↦
              rw (full, stored, if◌then◌else◌)
                (record {
                  lively = inr refl;
                  arrived = λ _. (
                    put_content run s bytes stored ∙ ap some whole,
                    λ sha f. same_some f refl ∙ ap sha256 whole,
                  );
                  resumes = λ u named.
                      let (part, sized, pos, sliced) = h.resumes u named in
                      (
                        part,
                        sized,
                        pos,
                        λ k b f. sliced k b (sym (put_keeps run s bytes u (suc k)) ∙ f),
                      );
                })
        ]
      ]

  started-IsResumable :
      (cp : Checkpoint) (s : State)
      → IsResumable (cp, s)
      → IsResumable (record cp { state = ObjectState.transferring; digested = [] }, s)
  started-IsResumable cp s h = record {
    lively = inl refl;
    arrived = λ bad. cc;
    resumes = h.resumes;
  }

  pub transfer_object-IsResumable :
      (run : ℕ) (r : Checkpoint × State)
      → IsResumable r
      → IsResumable (transfer_object c sha256 size configured run r)
  unfolding transfer_object
  transfer_object-IsResumable run (cp, s) h =
      let start = record cp { state = ObjectState.transferring; digested = [] } in
      let ready = started-IsResumable cp s h in
      elim (Bool-cases (may_copy cp.state)) [
        | inr closed ↦ rw (closed, if◌then◌else◌) h
        | inl open_ ↦ elim (Bool-cases (opens run)) [
          | inr shut ↦ rw (open_, shut, if◌then◌else◌) ready
          | inl reads ↦ elim (Bool-cases (leb size direct_sha_limit)) [
            | inl small ↦
                rw (open_, reads, small, if◌then◌else◌)
                  (copy_direct-IsResumable run start s (read run 0 size) refl ready refl)
            | inr large ↦
                rw (open_, reads, large, if◌then◌else◌)
                  (copy_multipart-IsResumable run start s cp.upload_id refl refl refl ready)
          ]
        ]
      ]

  pub transfer_runs-IsResumable :
      (runs : ℕ) (r : Checkpoint × State)
      → IsResumable r
      → IsResumable (transfer_runs c sha256 size configured runs r)
  unfolding transfer_runs
  transfer_runs-IsResumable zero r h = h
  transfer_runs-IsResumable (suc run) r h =
      transfer_object-IsResumable run _ (transfer_runs-IsResumable run r h)

  -- An object whose copy has not begun.
  pub fresh-IsResumable :
      (cp : Checkpoint) (s : State)
      → cp.state ≡ ObjectState.restored
      → cp.upload_id ≡ none
      → IsResumable (cp, s)
  fresh-IsResumable cp s fresh unnamed = record {
    lively = inl (rw fresh refl);
    arrived = λ bad. cc;
    resumes = λ u bad. cc;
  }

-- Interruptions do not corrupt a copy. However many runs of a copy have been made, each of them
-- interrupted anywhere or refused any request, a row that was restored with no upload open and
-- that is transferred in the end has the first size_bytes bytes of the source at the
-- destination, whatever was there before and whichever parts were taken up from earlier runs;
-- and where a source checksum is recorded, it is that of these bytes.
pub transfer_runs-delivers :
    {source : List ℕ} (c : Cloud source) (sha256 : List ℕ → ℕ) (size configured runs : ℕ)
    (cp : Checkpoint) (s : c.State)
    → cp.state ≡ ObjectState.restored
    → cp.upload_id ≡ none
    → let (after, stores) = transfer_runs c sha256 size configured runs (cp, s) in
      after.state ≡ ObjectState.transferred
      → (c.content stores ≡ some (take size source))
        × ((sha : ℕ) → after.source_checksum ≡ some sha → sha ≡ sha256 (take size source))
transfer_runs-delivers c sha256 size configured runs cp s fresh unnamed =
    (transfer_runs-IsResumable c sha256 size configured runs (cp, s)
      (fresh-IsResumable c sha256 size configured cp s fresh unnamed)).arrived
