-- ===== src/Simulator/Jobs/Retry.antt =====
-- The results of `append_restore_job_objects` (app/simulation_engine.py) for a manifest that is sent in parts.
use copy_s3_to_oci.Base.{
  ℕ, suc, ◌+◌, ◌≡◌, refl, ap, ◌∙◌, Bool, true, false, ◌||◌, Option, none, some, List, [], ◌∷◌, ◌++◌,
  ◌==◌, any, count, length, length-append, All, arith, if◌then◌else◌,
}
use copy_s3_to_oci.Simulator.Restores.{VirtualObject, Fault}
use copy_s3_to_oci.Simulator.Jobs.{
  ObjectResult, Results, Conditions, RestoreJob, JobState, has_key, request_object, request_found,
  append_object, append_restore_job_objects, is_accepted, is_failed, finalize_restore_job,
  other_version,
}

abbrev is_answered : Results → ℕ → Bool
is_answered s key = any (has_key key) s.rows

abbrev result : ℕ → Bool → Bool → ObjectResult
result key accepted already = record {
  key = key;
  accepted = accepted;
  already_in_progress = already;
}

-- A turn adds one result, for its key.
Adds : ℕ → Results → Results → Type 0
Adds key before after =
    (accepted : Bool) × (already : Bool) × (after.rows
      ≡ before.rows ++ result key accepted already ∷ [])

if_holds {ℓ κ} :
    {A : Type ℓ} (P : A → Type κ) (b : Bool) {x y : A}
    → (b ≡ true → P x)
    → (b ≡ false → P y)
    → P (if b then x else y)
if_holds P true f g = f refl
if_holds P false f g = g refl

request_object-Adds :
    (c : Conditions) (fault : Fault) (key version : ℕ) (item : VirtualObject) (s : Results)
    → Adds key s (request_object c fault key version item s)
unfolding Adds
request_object-Adds c Fault.refusal key version item s = (false, false, refl)
request_object-Adds c Fault.no_fault key version item s = (true, _, refl)
request_object-Adds c (Fault.delay_seconds n) key version item s = (true, _, refl)

request_found-Adds :
    (c : Conditions) (key : ℕ) (wanted : Option ℕ) (found : Option (ℕ × VirtualObject))
    (s : Results)
    → Adds key s (request_found c key wanted found s)
unfolding Adds
request_found-Adds c key wanted none s = (false, false, refl)
request_found-Adds c key wanted (some (version, item)) s =
    if_holds (Adds key s) (other_version wanted version) (λ _. (false, false, refl))
      (λ _. request_object-Adds c (c.faults key) key version _ s)

any-added :
    {A : Type 0} (p : A → Bool) (xs : List A) (x : A) → any p (xs ++ x ∷ []) ≡ (any p xs || p x)
any-added p [] x = ground arith
any-added p (y ∷ ys) x = ap (λ b. p y || b) (any-added p ys x) ∙ ground arith

append_object-answers :
    (c : Conditions) (key : ℕ) (wanted : Option ℕ) (s : Results)
    → is_answered (append_object c (key, wanted) s) key ≡ true
unfolding Adds
append_object-answers c key wanted s =
    if_holds (λ x. is_answered x key ≡ true) (any (has_key key) s.rows) (λ e. e)
      (λ _.
        let (accepted, already, e) = request_found-Adds c key wanted (s.objects key) s in
        let here : (key == key) ≡ true = ground arith in
        ap (any (has_key key)) e
        ∙ any-added (has_key key) s.rows (result key accepted already)
        ∙ ground arith)

append_object-keeps :
    (c : Conditions) (key : ℕ) (wanted : Option ℕ) (s : Results) (other : ℕ)
    → is_answered s other ≡ true
    → is_answered (append_object c (key, wanted) s) other ≡ true
unfolding Adds
append_object-keeps c key wanted s other h =
    if_holds (λ x. is_answered x other ≡ true) (any (has_key key) s.rows) (λ _. h)
      (λ _.
        let (accepted, already, e) = request_found-Adds c key wanted (s.objects key) s in
        ap (any (has_key other)) e
        ∙ any-added (has_key other) s.rows (result key accepted already)
        ∙ ground arith)

append-keeps :
    (c : Conditions) (ids : List (ℕ × Option ℕ)) (s : Results) (other : ℕ)
    → is_answered s other ≡ true
    → is_answered (append_restore_job_objects c ids s) other ≡ true
unfolding append_restore_job_objects
append-keeps c [] s other h = h
append-keeps c ((key, wanted) ∷ ids) s other h =
    append-keeps c ids (append_object c (key, wanted) s) other
      (append_object-keeps c key wanted s other h)

-- Every identity has its result.
AreAnswered : Results → List (ℕ × Option ℕ) → Type 0
AreAnswered s ids = All (λ (id : ℕ × Option ℕ). is_answered s id.0 ≡ true) ids

append-answers :
    (c : Conditions) (ids : List (ℕ × Option ℕ)) (s : Results)
    → AreAnswered (append_restore_job_objects c ids s) ids
unfolding append_restore_job_objects AreAnswered
append-answers c [] s = tt
append-answers c ((key, wanted) ∷ ids) s = (
  append-keeps c ids _ key (append_object-answers c key wanted s),
  append-answers c ids (append_object c (key, wanted) s),
)

append-same :
    (c : Conditions) (ids : List (ℕ × Option ℕ)) (s : Results)
    → AreAnswered s ids
    → append_restore_job_objects c ids s ≡ s
unfolding append_restore_job_objects AreAnswered
append-same c [] s h = refl
append-same c ((key, wanted) ∷ ids) s (here, rest) =
    ap
      (λ b.
        append_restore_job_objects c ids
          (if b then s else request_found c key wanted (s.objects key) s))
      here
    ∙ append-same c ids s rest

abbrev pub AreDistinctKeys : List (ℕ × Option ℕ) → Type 0
AreDistinctKeys [] = Unit
AreDistinctKeys (id ∷ ids) =
    All (λ (other : ℕ × Option ℕ). (id.0 == other.0) ≡ false) ids × AreDistinctKeys ids

-- No identity has a result.
abbrev AreNew : Results → List (ℕ × Option ℕ) → Type 0
AreNew s ids = All (λ (id : ℕ × Option ℕ). is_answered s id.0 ≡ false) ids

next-AreNew :
    (before after : Results) (key : ℕ) (ids : List (ℕ × Option ℕ))
    → Adds key before after
    → All (λ (other : ℕ × Option ℕ). (key == other.0) ≡ false) ids
    → AreNew before ids
    → AreNew after ids
unfolding Adds
next-AreNew before after key [] added apart h = tt
next-AreNew before after key ((other, wanted) ∷ ids) (accepted, already, e) (distinct, apart)
      (new, h) =
    (
      ap (any (has_key other)) e
          ∙ any-added (has_key other) before.rows (result key accepted already)
          ∙ ground arith,
      next-AreNew before after key ids (accepted, already, e) apart h,
    )

append_object-Adds :
    (c : Conditions) (key : ℕ) (wanted : Option ℕ) (s : Results)
    → is_answered s key ≡ false
    → Adds key s (append_object c (key, wanted) s)
append_object-Adds c key wanted s new =
    if_holds (Adds key s) (any (has_key key) s.rows) (λ bad. cc)
      (λ _. request_found-Adds c key wanted (s.objects key) s)

Adds-length :
    (key : ℕ) (before after : Results)
    → Adds key before after
    → length after.rows ≡ suc (length before.rows)
unfolding Adds
Adds-length key before after (accepted, already, e) =
    ap length e ∙ length-append before.rows (result key accepted already ∷ []) ∙ omega arith

length-append_restore_job_objects :
    (c : Conditions) (ids : List (ℕ × Option ℕ)) (s : Results)
    → AreDistinctKeys ids
    → AreNew s ids
    → length (append_restore_job_objects c ids s).rows ≡ length s.rows + length ids
unfolding append_restore_job_objects
length-append_restore_job_objects c [] s distinct new = omega arith
length-append_restore_job_objects c ((key, wanted) ∷ ids) s (apart, distinct) (here, new) =
    let added = append_object-Adds c key wanted s here in
    let rest =
      length-append_restore_job_objects c ids (append_object c (key, wanted) s) distinct
        (next-AreNew s _ key ids added apart new) in
    omega (arith, rest, Adds-length key s _ added)

-- A part of the manifest under earlier conditions, and the rest under later ones.
length-resumed :
    (earlier later : Conditions) (first rest : List (ℕ × Option ℕ)) (s : Results)
    → AreDistinctKeys (first ++ rest)
    → AreNew s (first ++ rest)
    → length
        (append_restore_job_objects later rest (append_restore_job_objects earlier first s)).rows
      ≡ length s.rows + length (first ++ rest)
unfolding append_restore_job_objects
length-resumed earlier later [] rest s distinct new =
    length-append_restore_job_objects later rest s distinct new
length-resumed earlier later ((key, wanted) ∷ first) rest s (apart, distinct) (here, new) =
    let added = append_object-Adds earlier key wanted s here in
    let counted =
      length-resumed earlier later first rest (append_object earlier (key, wanted) s) distinct
        (next-AreNew s _ key (first ++ rest) added apart new) in
    omega (arith, counted, Adds-length key s _ added)

append-joined :
    (c : Conditions) (first rest : List (ℕ × Option ℕ)) (s : Results)
    → append_restore_job_objects c (first ++ rest) s
      ≡ append_restore_job_objects c rest (append_restore_job_objects c first s)
unfolding append_restore_job_objects
append-joined c [] rest s = refl
append-joined c (id ∷ first) rest s = append-joined c first rest (append_object c id s)

count-failed :
    (rows : List ObjectResult) → count is_accepted rows + count is_failed rows ≡ length rows
count-failed [] = refl
count-failed (r ∷ rows) = ground (arith, count-failed rows)

empty-AreNew :
    (objects : ℕ → Option (ℕ × VirtualObject)) (ids : List (ℕ × Option ℕ))
    → AreNew (record { rows = []; objects = objects }) ids
empty-AreNew objects [] = tt
empty-AreNew objects (id ∷ ids) = (refl, empty-AreNew objects ids)

finalized :
    (rows : List ObjectResult) (job : RestoreJob)
    → length rows ≡ job.object_count
    → (finalize_restore_job job.manifest_sha256 rows job).state ≡ JobState.complete
unfolding finalize_restore_job
finalized rows job full =
    let whole = count-failed rows in
    let same : (job.manifest_sha256 == job.manifest_sha256) ≡ true = ground arith in
    let all : (count is_accepted rows + count is_failed rows == job.object_count) ≡ true =
      ground arith in
    rw (same, all, if◌then◌else◌) refl

-- The manifest of a restore job may be sent again. Where its keys are distinct and as many as
-- the job's objects, and a first part of it was taken up before an interruption, under whatever
-- faults and delays: sending the whole manifest later, under whatever other faults and delays,
-- does what sending the rest alone does, to the results and to the objects, so that no restore
-- is requested twice; and with the manifest's checksum the job is then complete.
pub finalize_restore_job-resumed :
    (earlier later : Conditions) (first rest : List (ℕ × Option ℕ))
    (objects : ℕ → Option (ℕ × VirtualObject)) (job : RestoreJob)
    → AreDistinctKeys (first ++ rest)
    → length (first ++ rest) ≡ job.object_count
    → let begun =
        append_restore_job_objects earlier first (record { rows = []; objects = objects }) in
      let done = append_restore_job_objects later (first ++ rest) begun in
      (done ≡ append_restore_job_objects later rest begun)
      × ((finalize_restore_job job.manifest_sha256 done.rows job).state ≡ JobState.complete)
finalize_restore_job-resumed earlier later first rest objects job distinct full =
    let fresh : Results = record { rows = []; objects = objects } in
    let begun = append_restore_job_objects earlier first fresh in
    let again =
      append-joined later first rest begun
      ∙ ap (append_restore_job_objects later rest)
          (append-same later first begun (append-answers earlier first fresh)) in
    let size =
      length-resumed earlier later first rest fresh distinct
        (empty-AreNew objects (first ++ rest)) in
    (again, finalized _ job (omega (arith, ap (λ (s : Results). length s.rows) again, size, full)))
