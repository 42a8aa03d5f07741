-- ===== src/Tasks/Worker/OneLane.antt =====
-- The live dispatchers of the continuous lane for each source.
use mathlib.Core.Option.{some-injective}
use copy_s3_to_oci.Base.{
  ℕ, ◌≤◌, ◌≡◌, refl, subst, sym, ap, ◌∙◌, Bool, true, false, ◌&&◌, not, none, some, List, [], ◌∷◌,
  ◌⊎◌, inl, inr, arith, holds, count, update_where, All, any-none, All-map_of, Bool-cases,
  Option-cases, ◌==◌, All-take, All-order_by, All-select,
}
use copy_s3_to_oci.Schema.{Task, TaskKind, Db, is_lane, get_task, source_of}
use copy_s3_to_oci.Tasks.Query.{live_lane, busy_beside, live_same_source, task_before}
use copy_s3_to_oci.Tasks.Worker.{claimed, claim_task, first_candidate, candidates}
use copy_s3_to_oci.Tasks.Lookup.{IsUnique, IsUnique-found}

module _ (p : Task → Bool) (k : ℕ) (f : Task → Task) where
  -- Where an update writes only rows that counted before or write none that counts, the count
  -- does not grow.
  count-update_where_le :
      (ts : List Task)
      → All (λ t. t.id ≡ k → p (f t) ≡ true → p t ≡ true) ts
      → count p (update_where (λ t. t.id == k) f ts) ≤ count p ts
  count-update_where_le [] h = omega arith
  count-update_where_le (t ∷ ts) h = ground (arith, count-update_where_le ts h.1, h.0)

  count-zero :
      (ts : List Task)
      → get_task k ts ≡ none
      → All (λ t. p t && not (t.id == k) ≡ false) ts
      → count p (update_where (λ t. t.id == k) f ts) ≡ 0
  count-zero [] e h = refl
  count-zero (t ∷ ts) e h = ground (arith, count-zero ts)

  -- Where no row but that of id `k` counts, at most one counts after its update.
  count-le_one :
      (ts : List Task)
      → IsUnique ts
      → All (λ t. p t && not (t.id == k) ≡ false) ts
      → count p (update_where (λ t. t.id == k) f ts) ≤ 1
  count-le_one [] u h = omega arith
  count-le_one (t ∷ ts) u h = elim (Bool-cases (t.id == k)) [
    | inl e ↦ ground (arith, count-zero ts)
    | inr e ↦ ground (arith, count-le_one ts u.1 h.1)
  ]

-- At instant `now` no source has two dispatchers that run under live leases.
abbrev pub IsOneLane : ℕ → Db → Type 0
IsOneLane now db = (s : ℕ) → count (live_lane db now s) db.tasks ≤ 1

-- A candidate that the worker may take: no dispatcher, or the only live one of its source.
abbrev IsFree : Db → ℕ → Task → Type 0
IsFree db now c = (is_lane c.kind ≡ false) ⊎ (live_same_source db now c ≡ false)

first_candidate-IsFree :
    (db : Db) (now : ℕ) (cs : List Task) {c : Task}
    → first_candidate db now cs ≡ some c
    → IsFree db now c
unfolding first_candidate
first_candidate-IsFree db now [] e = cc
first_candidate-IsFree db now (d ∷ cs) {c} e =
    ground (arith, first_candidate-IsFree db now cs {c = c})

module _ (me lease now : ℕ) (db : Db) (c : Task) where
  abbrev after : List Task
  after = update_where (λ t. t.id == c.id) (claimed me lease now) db.tasks

  same_row :
      get_task c.id db.tasks ≡ some c
      → (t : Task) → get_task t.id db.tasks ≡ some t
      → t.id ≡ c.id
      → t ≡ c
  same_row found t e same = some-injective t c (sym e ∙ ap (λ k. get_task k db.tasks) same ∙ found)

  other_live :
      (s : ℕ)
      → is_lane c.kind && holds (source_of db c.wave_id) s ≡ false
      → (t : Task) → (t.id ≡ c.id → t ≡ c)
      → t.id ≡ c.id
      → live_lane db now s (claimed me lease now t) ≡ true
      → live_lane db now s t ≡ true
  other_live s off t same hit live = ground (arith, same hit)

  -- Where the claimed task is no dispatcher of `s`, the count for `s` does not grow.
  other-le :
      (s : ℕ)
      → is_lane c.kind && holds (source_of db c.wave_id) s ≡ false
      → All (λ t. t.id ≡ c.id → t ≡ c) db.tasks
      → count (live_lane db now s) after ≤ count (live_lane db now s) db.tasks
  other-le s off one =
      count-update_where_le (live_lane db now s) c.id (claimed me lease now) db.tasks
        (All-map_of (other_live s off) db.tasks one)

  not_busy :
      (s : ℕ)
      → is_lane c.kind && holds (source_of db c.wave_id) s ≡ true
      → IsFree db now c
      → live_same_source db now c ≡ false
  not_busy s own free = ground arith

  own_live :
      (s : ℕ)
      → is_lane c.kind && holds (source_of db c.wave_id) s ≡ true
      → (t : Task) → busy_beside db now c t ≡ false
      → live_lane db now s t && not (t.id == c.id) ≡ false
  own_live s own t h = ground arith

  -- Where it is one, no other dispatcher of `s` is live.
  own-le :
      (s : ℕ)
      → is_lane c.kind && holds (source_of db c.wave_id) s ≡ true
      → IsFree db now c
      → IsUnique db.tasks
      → count (live_lane db now s) after ≤ 1
  unfolding live_same_source
  own-le s own free u = count-le_one (live_lane db now s) c.id (claimed me lease now) db.tasks u (
      All-map_of (own_live s own) db.tasks
        (any-none (busy_beside db now c) db.tasks (not_busy s own free)))

  claimed-count :
      (s : ℕ)
      → IsFree db now c
      → IsUnique db.tasks
      → get_task c.id db.tasks ≡ some c
      → IsOneLane now db
      → count (live_lane db now s) after ≤ 1
  claimed-count s free u found one =
      elim (Bool-cases (is_lane c.kind && holds (source_of db c.wave_id) s)) [
        | inl own ↦ own-le s own free u
        | inr off ↦ omega (
          arith,
          other-le s off (All-map_of (same_row found) db.tasks (IsUnique-found db.tasks u)),
          one s,
        )
      ]

module _ (locked : ℕ → Bool) (me : ℕ) (allowed : TaskKind → Bool) (now : ℕ) (db : Db) where
  abbrev Found : Task → Type 0
  Found t = get_task t.id db.tasks ≡ some t

  candidates-Found : IsUnique db.tasks → All Found (candidates locked me allowed now db)
  unfolding candidates
  candidates-Found u =
      All-take Found 64 _
        (All-order_by Found task_before _ (All-select Found _ db.tasks (IsUnique-found db.tasks u)))

All-first_candidate {κ} :
    (P : Task → Type κ) (db : Db) (now : ℕ) (cs : List Task) {c : Task}
    → All P cs
    → first_candidate db now cs ≡ some c
    → P c
unfolding first_candidate
All-first_candidate P db now [] h e = cc
All-first_candidate P db now (d ∷ cs) {c} h e =
    elim (Bool-cases (is_lane d.kind && live_same_source db now d)) [
      | inl busy ↦ All-first_candidate P db now cs h.1 (rw (busy, first_candidate) at e)
      | inr free ↦ subst P (some-injective d c (rw (free, first_candidate) at e)) h.0
    ]

-- A worker's claim keeps the lanes apart: if the task ids are distinct and no source has two
-- dispatchers under live leases at the time of the claim, none has two after it, whichever task
-- is claimed, also where the worker takes over a task of its own.
pub claim_task-IsOneLane :
    (locked : ℕ → Bool) (me : ℕ) (allowed : TaskKind → Bool) (lease now : ℕ) (db : Db)
    → IsUnique db.tasks
    → IsOneLane now db
    → IsOneLane now (claim_task locked me allowed lease now db).1
unfolding claim_task
claim_task-IsOneLane locked me allowed lease now db u one =
    elim (Option-cases (first_candidate db now (candidates locked me allowed now db))) [
      | inl e ↦ rw (e, claim_task) one
      | inr (c, e) ↦
          rw (e, claim_task)
            λ s.
              claimed-count me lease now db c s
                (first_candidate-IsFree db now (candidates locked me allowed now db) e) u
                (All-first_candidate (Found locked me allowed now db) db now
                  (candidates locked me allowed now db)
                  (candidates-Found locked me allowed now db u) e)
                one
    ]
