-- ===== src/Lane/Claim/Batch.antt =====
-- What one claim selects from the candidates.
use copy_s3_to_oci.Base.{
  ℕ, suc, ◌+◌, ◌-◌, ◌≤◌, ◌≡◌, refl, sym, subst, ap, max, Bool, true, false, ◌&&◌, ◌||◌, not, Option,
  List, [], ◌∷◌, arith, ltb, leb, ◌⊎◌, inl, inr, length, total, take, All, All-take, All-map_of,
  All-order_by, All-select_self, if◌then◌else◌, Bool-cases, &&-left,
}
use copy_s3_to_oci.Schema.{QueueItem, Db, is_dispatchable, wave_open}
use copy_s3_to_oci.Lane.{retry_due, urgent_before, is_claimable, claim_page}
use copy_s3_to_oci.Lane.Claim.{
  Settings, is_critical, same, pick, batch_of, object_limit, byte_limit, candidate_items, at_least,
  claim_continuous_transfer_batch, claim_from, prepared,
}

pub sizes : List QueueItem → ℕ
sizes is = total (λ i. i.size_bytes) is

-- A batch whose lead is `lead`, out of the candidates `lead ∷ is`.
pub record IsBatch (s : Settings) (most : Option ℕ) (lead : QueueItem) (is : List QueueItem)
    (batch : List QueueItem) : Type 0 where
  pub prefix : (k : ℕ) × (batch ≡ lead ∷ take k is)
  pub alike : All (λ i. is_critical s i ≡ is_critical s lead) batch
  pub objects : length batch ≤ max 1 (object_limit s most (is_critical s lead))
  pub bytes : (length batch ≡ 1) ⊎ (sizes batch ≤ byte_limit s (is_critical s lead))

-- Where the loop stops, or takes the item as its last, what is taken is a prefix still.
prefix-choice :
    (b c d : Bool) (i : QueueItem) (is rest : List QueueItem) (k : ℕ)
    → rest ≡ take k is
    → (m : ℕ) × ((if b then [] else if c then [] else if d then i ∷ [] else i ∷ rest)
        ≡ take m (i ∷ is))
prefix-choice true c d i is rest k e = (0, refl)
prefix-choice false true d i is rest k e = (0, refl)
prefix-choice false false true i is rest k e = (1, refl)
prefix-choice false false false i is rest k e = (suc k, ap (◌∷◌ i) e)

Fits : ℕ → ℕ → List QueueItem → Type 0
Fits limit bytes is = (is ≡ []) ⊎ (bytes + sizes is ≤ limit)

Fits-choice :
    (limit bytes : ℕ) (b c d : Bool) (i : QueueItem) (rest : List QueueItem)
    → (c ≡ false → bytes + i.size_bytes ≤ limit)
    → Fits limit (bytes + i.size_bytes) rest
    → Fits limit bytes (if b then [] else if c then [] else if d then i ∷ [] else i ∷ rest)
unfolding Fits sizes
Fits-choice limit bytes true c d i rest h r = inl refl
Fits-choice limit bytes false true d i rest h r = inl refl
Fits-choice limit bytes false false true i rest h r = inr (omega (arith, h refl))
Fits-choice limit bytes false false false i rest h (inl e) = inr (rw e (omega (arith, h refl)))
Fits-choice limit bytes false false false i rest h (inr le) = inr (omega (arith, le))

module _ (s : Settings) (critical : Bool) (objects limit : ℕ) where
  pick-prefix :
      (n bytes : ℕ) (is : List QueueItem)
      → (k : ℕ) × (pick s critical objects limit n bytes is ≡ take k is)
  unfolding pick
  pick-prefix n bytes [] = (0, refl)
  pick-prefix n bytes (i ∷ is) =
      let (k, e) = pick-prefix (n + 1) (bytes + i.size_bytes) is in
      prefix-choice (not (same critical (is_critical s i)))
        (ltb 0 n && (leb objects n || ltb limit (bytes + i.size_bytes))) (leb objects (n + 1)) i is
        _ k e

  pick-alike :
      (n bytes : ℕ) (is : List QueueItem)
      → All (λ i. is_critical s i ≡ critical) (pick s critical objects limit n bytes is)
  unfolding pick
  pick-alike n bytes [] = tt
  pick-alike n bytes (i ∷ is) = ground (arith, pick-alike (n + 1) (bytes + i.size_bytes) is)

  pick-objects :
      (n bytes : ℕ) (is : List QueueItem)
      → 1 ≤ n
      → length (pick s critical objects limit n bytes is) ≤ objects - n
  unfolding pick
  pick-objects n bytes [] h = omega arith
  pick-objects n bytes (i ∷ is) h = ground (arith, pick-objects (n + 1) (bytes + i.size_bytes) is)

  pick-bytes :
      (n bytes : ℕ) (is : List QueueItem)
      → 1 ≤ n
      → Fits limit bytes (pick s critical objects limit n bytes is)
  unfolding pick Fits
  pick-bytes n bytes [] h = inl refl
  pick-bytes n bytes (i ∷ is) h =
      Fits-choice limit bytes (not (same critical (is_critical s i)))
        (ltb 0 n && (leb objects n || ltb limit (bytes + i.size_bytes))) (leb objects (n + 1)) i _
        (λ e. ground arith) (pick-bytes (n + 1) (bytes + i.size_bytes) is (omega arith))

same_self : (b : Bool) → not (same b b) ≡ false
same_self true = refl
same_self false = refl

-- The lead is always taken.
batch_of-lead :
    (s : Settings) (most : Option ℕ) (lead : QueueItem) (is : List QueueItem)
    → let critical = is_critical s lead in
      let objects = object_limit s most critical in
      batch_of s most lead is ≡ (
        if leb objects 1
        then lead ∷ []
        else lead ∷ pick s critical objects (byte_limit s critical) 1 (0 + lead.size_bytes) is)
unfolding batch_of pick
batch_of-lead s most lead is = rw (same_self (is_critical s lead), if◌then◌else◌) refl

one_or_Fits :
    (limit : ℕ) (lead : QueueItem) (rest : List QueueItem)
    → Fits limit (0 + lead.size_bytes) rest
    → (length (lead ∷ rest) ≡ 1) ⊎ (sizes (lead ∷ rest) ≤ limit)
unfolding Fits sizes
one_or_Fits limit lead rest (inl e) = inl (rw e refl)
one_or_Fits limit lead rest (inr le) = inr (omega (arith, le))

pub batch_of-IsBatch :
    (s : Settings) (most : Option ℕ) (lead : QueueItem) (is : List QueueItem)
    → IsBatch s most lead is (batch_of s most lead is)
batch_of-IsBatch s most lead is =
    let critical = is_critical s lead in
    let objects = object_limit s most critical in
    let limit = byte_limit s critical in
    subst (IsBatch s most lead is) (sym (batch_of-lead s most lead is))
      (elim (Bool-cases (leb objects 1)) [
        | inl e ↦ rw e (record {
          prefix = (0, refl);
          alike = (refl, tt);
          objects = omega arith;
          bytes = inl refl;
        })
        | inr e ↦ rw e (
            let (k, same_prefix) =
              pick-prefix s critical objects limit 1 (0 + lead.size_bytes) is in
            record {
              prefix = (k, ap (◌∷◌ lead) same_prefix);
              alike = (refl, pick-alike s critical objects limit 1 (0 + lead.size_bytes) is);
              objects =
                  ground (arith, pick-objects s critical objects limit 1 (0 + lead.size_bytes) is);
              bytes =
                  one_or_Fits limit lead _
                    (pick-bytes s critical objects limit 1 (0 + lead.size_bytes) is (omega arith));
            })
      ])

pub candidate_items-claimable :
    (locked : ℕ → Bool) (source : ℕ) (minimum : Option ℕ) (now : ℕ) (db : Db)
    → All (λ i. is_claimable db source now i ≡ true) (candidate_items locked source minimum now db)
unfolding candidate_items
candidate_items-claimable locked source minimum now db =
    let fits : QueueItem → Bool =
      λ i. (is_claimable db source now i && at_least minimum i) && not (locked i.id) in
    All-take (λ i. is_claimable db source now i ≡ true) claim_page _
      (All-order_by (λ i. is_claimable db source now i ≡ true) urgent_before _
        (All-map_of
          (λ i h. &&-left (is_claimable db source now i) (at_least minimum i) (&&-left _ _ h)) _
          (All-select_self fits db.items)))

-- An item that a dispatcher of the source may copy now.
abbrev pub IsReady : Db → ℕ → ℕ → QueueItem → Type 0
IsReady db source now i =
    (i.source_id ≡ source)
    × (is_dispatchable i.state ≡ true)
    × (retry_due i.retry_at now ≡ true)
    × (wave_open db i.wave_id ≡ true)

claimable-IsReady :
    (db : Db) (source now : ℕ) (i : QueueItem)
    → is_claimable db source now i ≡ true
    → IsReady db source now i
claimable-IsReady db source now i h = (ground arith, ground arith, ground arith, ground arith)

-- Where nothing can be claimed, the claim has only tidied the lane; else it answers with a batch.
abbrev pub Selects :
    Settings → Option ℕ → ℕ → ℕ → List QueueItem → Db → List QueueItem → Db → Type 0
Selects s most source now candidates ready batch after =
    ((candidates ≡ []) × (batch ≡ []) × (after ≡ ready))
    ⊎ ((lead : QueueItem) × (rest : List QueueItem) × (candidates ≡ lead ∷ rest)
        × IsBatch s most lead rest batch
        × All (IsReady ready source now) batch)

from-Selects :
    (s : Settings) (me token source task : ℕ) (most : Option ℕ) (now : ℕ) (db : Db)
    (cs : List QueueItem)
    → All (λ i. is_claimable db source now i ≡ true) cs
    → let found = claim_from s me token source task most now db cs in
      Selects s most source now cs db found.0 found.1
unfolding claim_from
from-Selects s me token source task most now db [] h = inl (refl, refl, refl)
from-Selects s me token source task most now db (i ∷ is) h =
    let batch = batch_of-IsBatch s most i is in
    inr (
      i,
      is,
      refl,
      batch,
      subst (All (IsReady db source now)) (sym batch.prefix.1) (
        claimable-IsReady db source now i h.0,
        All-map_of (claimable-IsReady db source now) _
            (All-take (λ j. is_claimable db source now j ≡ true) batch.prefix.0 is h.1),
      ),
    )

-- A claim of the lane either finds no candidate, answers with no item and changes nothing
-- beyond the recovery and the refresh, or answers with a batch: a prefix of the candidates in
-- urgency order that begins with the first, all items critical or none, at most the object
-- limit and at most the byte limit unless it is a single item, each item dispatchable, due, of
-- this source and of a wave that is not paused.
pub claim_continuous_transfer_batch-Selects :
    (s : Settings) (locked : ℕ → Bool) (me token source task : ℕ) (most minimum : Option ℕ)
    (priority_now now : ℕ) (db : Db)
    → let ready = prepared s locked source priority_now now db in
      let found =
        claim_continuous_transfer_batch s locked me token source task most minimum priority_now now
          db in
      Selects s most source now
        (candidate_items locked source minimum now ready)
        ready
        found.0
        found.1
unfolding claim_continuous_transfer_batch
claim_continuous_transfer_batch-Selects s locked me token source task most minimum p now db =
    let ready = prepared s locked source p now db in
    from-Selects s me token source task most now ready _
      (candidate_items-claimable locked source minimum now ready)
