-- ===== src/Tasks/Api/Terminal.antt =====
-- Sequences of requests to /api/tasks, and tasks that have ended.
use copy_s3_to_oci.Base.{
  ℕ, ◌≡◌, refl, Bool, true, false, some, List, [], ◌∷◌, inl, inr, arith, update_where, select,
  Bool-cases, Option-cases, ◌==◌, All, &&-left,
}
use copy_s3_to_oci.Http.{Reply, ok, err}
use copy_s3_to_oci.Schema.{Task, Db, is_active, get_task}
use copy_s3_to_oci.Tasks.Lookup.{
  IsUnique, IsUnique-update_where, get_task-update_where, get_task-id,
}
use copy_s3_to_oci.Tasks.Api.{
  eligible, claimed, claim_first, claim_task, write_held, put_beat, put_success, put_return, beaten,
  finished, returned, is_held, is_abandoned, recovered, log_recovered, heartbeat_task, succeed_task,
  fail_task, recover_expired_tasks,
}
use copy_s3_to_oci.Tasks.Api.Fences.{Fits, queue-Fits}

pub data Request : Type 0 where
  claim : (ℕ → Bool) → (worker lease now : ℕ) → Request
  heartbeat : (key worker lease now : ℕ) → Request
  succeed : (key worker : ℕ) → Request
  fail : (key worker retry_after message now : ℕ) → Request
  recover : (ℕ → Bool) → (message now : ℕ) → Request

-- A request that raises commits nothing.
abbrev pub after : Db → Reply Db → Db
after db (ok db') = db'
after db (err _) = db

pub step : Db → Request → Db
step db (claim locked worker lease now) = (claim_task locked worker lease now db).1
step db (heartbeat key worker lease now) = after db (heartbeat_task key worker lease now db)
step db (succeed key worker) = after db (succeed_task key worker db)
step db (fail key worker retry_after message now) =
    after db (fail_task key worker retry_after message now db)
step db (recover locked message now) = (recover_expired_tasks locked message now db).1

pub run : Db → List Request → Db
run db [] = db
run db (r ∷ rs) = run (step db r) rs

-- What each request keeps of the table: distinct ids, and every row that is not active.
record Keeps (before after : List Task) : Type 0 where
  unique : IsUnique before → IsUnique after
  ended :
      IsUnique before
      → (k : ℕ) (t : Task) → get_task k before ≡ some t
      → is_active t.state ≡ false
      → get_task k after ≡ some t

Keeps-refl : (ts : List Task) → Keeps ts ts
Keeps-refl ts = record { unique = λ u. u; ended = λ u k t e h. e }

-- An update that misses every ended row.
update_where-Keeps :
    (p : Task → Bool) (f : Task → Task) (ts : List Task)
    → ((t : Task) → (f t).id ≡ t.id)
    → (IsUnique ts
        → (k : ℕ) (t : Task) → get_task k ts ≡ some t
        → is_active t.state ≡ false
        → p t ≡ false)
    → Keeps ts (update_where p f ts)
update_where-Keeps p f ts same miss = record {
  unique = IsUnique-update_where p f ts same;
  ended = λ u k t e h. rw (get_task-update_where k p f ts same, e, miss u k t e h) refl;
}

-- An update of the row with the id of an active task.
active-Keeps :
    (key : ℕ) (f : Task → Task) (ts : List Task) (t : Task)
    → ((u : Task) → (f u).id ≡ u.id)
    → get_task key ts ≡ some t
    → is_active t.state ≡ true
    → Keeps ts (update_where (λ u. u.id == key) f ts)
active-Keeps key f ts t same e active = update_where-Keeps (λ u. u.id == key) f ts same other
  where
    other :
        IsUnique ts
        → (k : ℕ) (u : Task) → get_task k ts ≡ some u
        → is_active u.state ≡ false
        → (u.id == key) ≡ false
    other _ k u found h = ground (arith, get_task-id k ts found)

log_recovered-tasks : (ts : List Task) (db : Db) → (log_recovered ts db).tasks ≡ db.tasks
log_recovered-tasks [] db = refl
log_recovered-tasks (t ∷ ts) db = log_recovered-tasks ts _

eligible_active :
    (db : Db) (now : ℕ) (t : Task) → eligible db now t ≡ true → is_active t.state ≡ true
unfolding eligible
eligible_active db now t h = ground arith

module _ (locked : ℕ → Bool) (worker lease now : ℕ) (db : Db) where
  claimed-Keeps :
      (t : Task)
      → (IsUnique db.tasks → Fits locked worker lease now db t)
      → Keeps db.tasks (update_where (λ u. u.id == t.id) (claimed worker lease now) db.tasks)
  claimed-Keeps t fits =
      update_where-Keeps _ _ db.tasks (λ u. refl)
        λ u k v e h.
          let f = fits u in
          let active = eligible_active db now t (&&-left _ _ f.0) in
          ground (arith, get_task-id k db.tasks e, f.1)

  first-Keeps :
      (ts : List Task)
      → (IsUnique db.tasks → All (Fits locked worker lease now db) ts)
      → Keeps db.tasks (claim_first worker lease now db ts).1.tasks
  first-Keeps [] fits = Keeps-refl db.tasks
  first-Keeps (t ∷ ts) fits = claimed-Keeps t (λ u. (fits u).0)

claim-Keeps :
    (locked : ℕ → Bool) (worker lease now : ℕ) (db : Db)
    → Keeps db.tasks (claim_task locked worker lease now db).1.tasks
unfolding claim_task
claim-Keeps locked worker lease now db =
    first-Keeps locked worker lease now db _ (queue-Fits locked worker lease now db)

-- A property of the state after a handler that writes only for the holder.
after-write_held {κ} :
    (P : Db → Type κ) (key worker : ℕ) (put : Task → Db → Db) (db : Db)
    → P db
    → ((t : Task) → get_task key db.tasks ≡ some t → is_held worker t ≡ true → P (put t db))
    → P (after db (write_held key worker put db))
after-write_held P key worker put db refused held = elim (Option-cases (get_task key db.tasks)) [
  | inl e ↦ rw (e, write_held) refused
  | inr (t, e) ↦ elim (Bool-cases (is_held worker t)) [
    | inl h ↦ rw (e, h, write_held) (held t e h)
    | inr h ↦ rw (e, h, write_held) refused
  ]
]

held-Keeps :
    (key worker : ℕ) (f : Task → Task) (ts : List Task) (t : Task)
    → ((u : Task) → (f u).id ≡ u.id)
    → get_task key ts ≡ some t
    → is_held worker t ≡ true
    → Keeps ts (update_where (λ u. u.id == key) f ts)
held-Keeps key worker f ts t same e h = active-Keeps key f ts t same e (ground arith)

abandoned-Keeps :
    (locked : ℕ → Bool) (message now : ℕ) (ts : List Task)
    → Keeps ts (update_where (is_abandoned locked now) (recovered message now) ts)
abandoned-Keeps locked message now ts =
    update_where-Keeps (is_abandoned locked now) (recovered message now) ts (λ t. refl)
      (λ u k t e h. ground arith)

step-Keeps : (db : Db) (r : Request) → Keeps db.tasks (step db r).tasks
unfolding step heartbeat_task succeed_task fail_task recover_expired_tasks
step-Keeps db (claim locked worker lease now) = claim-Keeps locked worker lease now db
step-Keeps db (heartbeat key worker lease now) =
    after-write_held (λ a. Keeps db.tasks a.tasks) key worker (put_beat key lease now) db
      (Keeps-refl db.tasks) (λ t. held-Keeps key worker (beaten lease now) db.tasks t (λ u. refl))
step-Keeps db (succeed key worker) =
    after-write_held (λ a. Keeps db.tasks a.tasks) key worker (put_success key) db
      (Keeps-refl db.tasks) (λ t. held-Keeps key worker finished db.tasks t (λ u. refl))
step-Keeps db (fail key worker retry_after message now) =
    after-write_held (λ a. Keeps db.tasks a.tasks) key worker
      (put_return key retry_after message now) db (Keeps-refl db.tasks)
      (λ t. held-Keeps key worker (returned retry_after message now) db.tasks t (λ u. refl))
step-Keeps db (recover locked message now) =
    rw (log_recovered-tasks (select (is_abandoned locked now) db.tasks) _)
      (abandoned-Keeps locked message now db.tasks)

-- Whatever requests to /api/tasks follow, a task that has succeeded, failed or been cancelled
-- keeps its row, where the task ids are distinct.
pub run-ended :
    (db : Db) (rs : List Request) (k : ℕ) (t : Task)
    → IsUnique db.tasks
    → get_task k db.tasks ≡ some t
    → is_active t.state ≡ false
    → get_task k (run db rs).tasks ≡ some t
unfolding run
run-ended db [] k t u e h = e
run-ended db (r ∷ rs) k t u e h =
    let keeps = step-Keeps db r in
    run-ended (step db r) rs k t (keeps.unique u) (keeps.ended u k t e h) h
