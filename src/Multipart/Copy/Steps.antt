-- ===== src/Multipart/Copy/Steps.antt =====
-- The loop over the parts in `transfer_object` of app/real_worker.py, and what an upload holds.
use copy_s3_to_oci.Base.{
  ℕ, zero, suc, ◌+◌, ◌*◌, ◌<◌, ◌≡◌, inl, inr, refl, sym, ap, subst, ◌∙◌, Option, none, some, List,
  [], ◌∷◌, ◌++◌, ◌==◌, arith, length, if◌then◌else◌, Bool-cases, Option-cases,
}
use mathlib.Core.List.{append-nil, append_assoc}
use copy_s3_to_oci.Multipart.{RemotePart, expected_part_size}
use copy_s3_to_oci.Multipart.Copy.{
  Cloud, Checkpoint, or_empty, assembled, part_in, reused, after_upload, send_part, copy_part,
  copy_parts,
}
use copy_s3_to_oci.Multipart.Copy.Slices.{slice, joined}

-- What a step of the copy leaves of the checkpoint.
abbrev pub SameUpload : Checkpoint → Checkpoint → Type 0
SameUpload after before =
    (after.state ≡ before.state)
    × (after.upload_id ≡ before.upload_id)
    × (after.part_size ≡ before.part_size)

reused_listed :
    (part : Option RemotePart) (evidence : Option ℕ) (expected : ℕ) {etag : ℕ}
    → reused part evidence expected ≡ some etag
    → (r : RemotePart) × (part ≡ some r)
unfolding reused
reused_listed none evidence expected e = cc
reused_listed (some r) evidence expected e = (r, refl)

some-injective : {xs ys : List (ℕ × ℕ)} → some xs ≡ some ys → xs ≡ ys
some-injective e = cc

absurd_listed :
    (number : ℕ) {o : Option RemotePart} {r : RemotePart} {A : Type 0} → o ≡ none → o ≡ some r → A
absurd_listed number e f = cc

module _ {source : List ℕ} (c : Cloud source) (sha256 : List ℕ → ℕ) (size configured : ℕ) where
  open c use {State, read, upload_part, held, read_slice, uploaded_keeps, uploaded_held}

  module _ (part run upload : ℕ) where
    -- Whatever the upload holds is the slice of its number.
    abbrev pub IsSliced : State → Type 0
    IsSliced s =
        (k : ℕ) (bytes : List ℕ)
        → held s upload (suc k) ≡ some bytes
        → bytes ≡ slice source size part k

    abbrev pub IsHeld : State → ℕ → Type 0
    IsHeld s k = held s upload (suc k) ≡ some (slice source size part k)

    record IsStep (k : ℕ) (cp : Checkpoint) (s : State) (remote : List (ℕ × RemotePart))
        (r : Option ℕ × Checkpoint × State) : Type 0 where
      same : SameUpload r.1 cp
      sliced : IsSliced r.2
      keeps : (m : ℕ) → IsHeld s m → IsHeld r.2 m
      holds : (e : ℕ) → r.0 ≡ some e → IsHeld r.2 k
      digests :
          (e : ℕ)
          → r.0 ≡ some e
          → remote ≡ []
          → r.1.digested ≡ cp.digested ++ slice source size part k

    uploaded-IsSliced :
        (k : ℕ) (s : State) (bytes : List ℕ)
        → bytes ≡ slice source size part k
        → IsSliced s
        → IsSliced (upload_part run s upload (suc k) bytes).1
    uploaded-IsSliced k s bytes e h m other f =
        elim (uploaded_keeps run s upload (suc k) bytes (suc m)) [
          | inl same ↦ h m other (sym same ∙ f)
          | inr (here, now_) ↦
              let at : m ≡ k = omega arith in
              let found : bytes ≡ other = cc in sym found ∙ e ∙ ap (slice source size part) (sym at)
        ]

    uploaded-IsHeld :
        (k : ℕ) (s : State) (bytes : List ℕ)
        → bytes ≡ slice source size part k
        → (m : ℕ) → IsHeld s m
        → IsHeld (upload_part run s upload (suc k) bytes).1 m
    uploaded-IsHeld k s bytes e m h = elim (uploaded_keeps run s upload (suc k) bytes (suc m)) [
      | inl same ↦ same ∙ h
      | inr (here, now_) ↦
          let at : m ≡ k = omega arith in now_ ∙ ap some (e ∙ ap (slice source size part) (sym at))
    ]

    after_upload-IsStep :
        (k sha : ℕ) (cp noted_ : Checkpoint) (s : State) (remote : List (ℕ × RemotePart))
        (bytes : List ℕ)
        → SameUpload noted_ cp
        → noted_.digested ≡ cp.digested ++ slice source size part k
        → bytes ≡ slice source size part k
        → IsSliced s
        → IsStep k cp s remote (
            after_upload c sha256 size configured
              (suc k)
              sha
              noted_
              (upload_part run s upload (suc k) bytes))
    after_upload-IsStep k sha cp noted_ s remote bytes same d e h =
        let next = upload_part run s upload (suc k) bytes in
        elim (Option-cases next.0) [
          | inl raised ↦
              rw (raised, after_upload)
                (record {
                  same = same;
                  sliced = uploaded-IsSliced k s bytes e h;
                  keeps = λ m held_. uploaded-IsHeld k s bytes e m held_;
                  holds = λ x bad. cc;
                  digests = λ x bad _. cc;
                })
          | inr (etag, accepted) ↦
              rw (accepted, after_upload)
                (record {
                  same = same;
                  sliced = uploaded-IsSliced k s bytes e h;
                  keeps = λ m held_. uploaded-IsHeld k s bytes e m held_;
                  holds = λ x _. uploaded_held run s upload (suc k) bytes accepted ∙ ap some e;
                  digests = λ x _ _. d;
                })
        ]

    -- A step that changes nothing and has no part.
    failed-IsStep :
        (k : ℕ) (cp : Checkpoint) (s : State) (remote : List (ℕ × RemotePart))
        → IsSliced s
        → IsStep k cp s remote (none, cp, s)
    failed-IsStep k cp s remote h = record {
      same = (refl, refl, refl);
      sliced = h;
      keeps = λ m x. x;
      holds = λ x bad. cc bad;
      digests = λ x bad _. cc bad;
    }

    send_part-IsStep :
        (k : ℕ) (cp : Checkpoint) (s : State) (remote : List (ℕ × RemotePart)) (r : Option (List ℕ))
        → read run (k * part) (expected_part_size size (suc k) part) ≡ r
        → IsSliced s
        → IsStep k cp s remote (
            send_part c sha256 size configured run upload
              (suc k)
              cp
              s
              r
              (expected_part_size size (suc k) part))
    send_part-IsStep k cp s remote none e h = failed-IsStep k cp s remote h
    send_part-IsStep k cp s remote (some bytes) e h =
        let whole = read_slice run (k * part) (expected_part_size size (suc k) part) e in
        elim (Bool-cases (length bytes == expected_part_size size (suc k) part)) [
          | inr short ↦ rw (short, if◌then◌else◌) (failed-IsStep k cp s remote h)
          | inl full ↦
              rw (full, if◌then◌else◌)
                (after_upload-IsStep k (sha256 bytes) cp
                  (record cp { digested = cp.digested ++ bytes }) s remote bytes (refl, refl, refl)
                  (ap (λ xs. cp.digested ++ xs) whole) whole h)
        ]

    copy_part-IsStep :
        (remote : List (ℕ × RemotePart)) (k : ℕ) (cp : Checkpoint) (s : State)
        → ((n : ℕ) (r : RemotePart) → part_in remote (suc n) ≡ some r → IsHeld s n)
        → IsSliced s
        → IsStep k cp s remote (copy_part c sha256 size configured run upload part remote k cp s)
    unfolding copy_part
    copy_part-IsStep remote k cp s listed h =
        elim (Option-cases (
          reused (part_in remote (suc k)) (cp.evidence (suc k))
            (expected_part_size size (suc k) part))) [
              | inl fresh ↦ rw (fresh, copy_part) (send_part-IsStep k cp s remote _ refl h)
              | inr (etag, kept) ↦
                  let (r, found) = reused_listed (part_in remote (suc k)) _ _ kept in
                  rw (kept, copy_part)
                    (record {
                      same = (refl, refl, refl);
                      sliced = h;
                      keeps = λ m x. x;
                      holds = λ x _. listed k r found;
                      digests = λ x _ empty.
                          absurd_listed (suc k) (ap (λ l. part_in l (suc k)) empty) found;
                    })
            ]

    -- The parts that were sent are the first `k`, whatever the upload holds.
    abbrev pub IsSent : ℕ → List (ℕ × ℕ) → Type 0
    IsSent k sent =
        (at : ℕ → Option (List ℕ))
        → ((m : ℕ) → m < k → at (suc m) ≡ some (slice source size part m))
        → assembled at sent ≡ joined source size part k

    assembled-added :
        (at : ℕ → Option (List ℕ)) (sent : List (ℕ × ℕ)) (number etag : ℕ)
        → assembled at (sent ++ (number, etag) ∷ []) ≡ assembled at sent ++ or_empty (at number)
    assembled-added at [] number etag = append-nil _
    assembled-added at ((n, e) ∷ sent) number etag =
        ap (λ xs. or_empty (at n) ++ xs) (assembled-added at sent number etag)
        ∙ sym (append_assoc (or_empty (at n)) (assembled at sent) (or_empty (at number)))

    next-IsSent :
        (k : ℕ) (sent : List (ℕ × ℕ)) (etag : ℕ)
        → IsSent k sent
        → IsSent (suc k) (sent ++ (suc k, etag) ∷ [])
    next-IsSent k sent etag h at all =
        assembled-added at sent (suc k) etag
        ∙ ap (λ xs. xs ++ or_empty (at (suc k))) (h at (λ m below. all m (omega arith)))
        ∙ ap (λ o. joined source size part k ++ or_empty o) (all k (omega arith))

    -- What the loop over the parts ends with, at the number `n` of parts.
    pub record IsEnd (n : ℕ) (cp : Checkpoint) (remote : List (ℕ × RemotePart))
        (r : Option (List (ℕ × ℕ)) × Checkpoint × State) : Type 0 where
      pub same : SameUpload r.1 cp
      pub sliced : IsSliced r.2
      pub sent_all :
          (sent : List (ℕ × ℕ))
          → r.0 ≡ some sent
          → IsSent n sent
            × ((m : ℕ) → m < n → IsHeld r.2 m)
            × (remote ≡ [] → r.1.digested ≡ joined source size part n)

    pub copy_parts-IsEnd :
        (n : ℕ) (remote : List (ℕ × RemotePart)) (left k : ℕ) (sent : List (ℕ × ℕ))
        (cp : Checkpoint) (s : State)
        → k + left ≡ n
        → ((m : ℕ) (r : RemotePart) → part_in remote (suc m) ≡ some r → IsHeld s m)
        → IsSliced s
        → IsSent k sent
        → ((m : ℕ) → m < k → IsHeld s m)
        → (remote ≡ [] → cp.digested ≡ joined source size part k)
        → IsEnd n cp remote
            (copy_parts c sha256 size configured run upload part remote left k sent cp s)
    unfolding copy_parts
    copy_parts-IsEnd n remote zero k sent cp s total listed h sent_k held_k digest_k =
        let at : k ≡ n = omega arith in
        subst (λ m. IsEnd m cp remote (some sent, cp, s)) at
          (record {
            same = (refl, refl, refl);
            sliced = h;
            sent_all = λ x got. (subst (IsSent k) (some-injective got) sent_k, held_k, digest_k);
          })
    copy_parts-IsEnd n remote (suc left) k sent cp s total listed h sent_k held_k digest_k =
        let r = copy_part c sha256 size configured run upload part remote k cp s in
        let step = copy_part-IsStep remote k cp s listed h in
        elim (Option-cases r.0) [
          | inl failed ↦
              rw (failed, copy_parts)
                (record { same = step.same; sliced = step.sliced; sent_all = λ x bad. cc })
          | inr (etag, accepted) ↦
              let rest =
                copy_parts-IsEnd n remote left (suc k) (sent ++ (suc k, etag) ∷ []) r.1 r.2
                  (omega arith) (λ m p found. step.keeps m (listed m p found)) step.sliced
                  (next-IsSent k sent etag sent_k)
                  (λ m below. elim (Bool-cases (m == k)) [
                    | inl now_ ↦ subst (IsHeld r.2) (ground arith) (step.holds etag accepted)
                    | inr before ↦ step.keeps m (held_k m (ground arith))
                  ])
                  (λ empty.
                    step.digests etag accepted empty
                    ∙ ap (λ xs. xs ++ slice source size part k) (digest_k empty)) in
              rw (accepted, copy_parts)
                (record {
                  same = (
                    rest.same.0 ∙ step.same.0,
                    rest.same.1 ∙ step.same.1,
                    rest.same.2 ∙ step.same.2,
                  );
                  sliced = rest.sliced;
                  sent_all = rest.sent_all;
                })
        ]
