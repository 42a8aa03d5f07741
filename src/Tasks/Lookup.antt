-- ===== src/Tasks/Lookup.antt =====
-- Reading a task's row by its id, before and after an update of the table.
use mathlib.Core.Option
use copy_s3_to_oci.Base.{
  ℕ, ◌≡◌, refl, Bool, none, some, List, [], ◌∷◌, arith, All, update_where, if◌then◌else◌, ◌==◌,
  All-map_of, ◌≢◌,
}
use copy_s3_to_oci.Schema.{Task, get_task}

-- No two rows of the table have one id (the primary key).
abbrev pub IsUnique : List Task → Type 0
IsUnique [] = Unit
IsUnique (t ∷ ts) = (get_task t.id ts ≡ none) × IsUnique ts

pub get_task-update_where :
    (j : ℕ) (p : Task → Bool) (f : Task → Task) (ts : List Task)
    → ((t : Task) → (f t).id ≡ t.id)
    → get_task j (update_where p f ts) ≡ Option.map (λ t. if p t then f t else t) (get_task j ts)
get_task-update_where j p f [] same = refl
get_task-update_where j p f (t ∷ ts) same =
    ground (arith, same t, get_task-update_where j p f ts same)

pub get_task-hit :
    (k : ℕ) (f : Task → Task) (ts : List Task) {t : Task}
    → ((u : Task) → (f u).id ≡ u.id)
    → get_task k ts ≡ some t
    → get_task k (update_where (λ u. u.id == k) f ts) ≡ some (f t)
get_task-hit k f [] same e = cc
get_task-hit k f (u ∷ ts) {t} same e = ground (arith, same u, get_task-hit k f ts {t = t} same)

pub get_task-miss :
    (j k : ℕ) (f : Task → Task) (ts : List Task)
    → ((u : Task) → (f u).id ≡ u.id)
    → j ≢ k
    → get_task j (update_where (λ u. u.id == k) f ts) ≡ get_task j ts
get_task-miss j k f [] same ne = refl
get_task-miss j k f (u ∷ ts) same ne = ground (arith, same u, get_task-miss j k f ts same ne)

pub get_task-id : (k : ℕ) (ts : List Task) {t : Task} → get_task k ts ≡ some t → t.id ≡ k
get_task-id k [] e = cc
get_task-id k (u ∷ ts) {t} e = ground (arith, get_task-id k ts {t = t})

IsFound-cons :
    (u : Task) (ts : List Task)
    → get_task u.id ts ≡ none
    → (t : Task) → get_task t.id ts ≡ some t
    → get_task t.id (u ∷ ts) ≡ some t
IsFound-cons u ts new t e = ground arith

-- In a table with distinct ids, each row is the one that its id finds.
pub IsUnique-found : (ts : List Task) → IsUnique ts → All (λ t. get_task t.id ts ≡ some t) ts
IsUnique-found [] h = tt
IsUnique-found (u ∷ ts) h =
    (ground arith, All-map_of (IsFound-cons u ts h.0) ts (IsUnique-found ts h.1))

pub IsUnique-update_where :
    (p : Task → Bool) (f : Task → Task) (ts : List Task)
    → ((t : Task) → (f t).id ≡ t.id)
    → IsUnique ts
    → IsUnique (update_where p f ts)
IsUnique-update_where p f [] same h = tt
IsUnique-update_where p f (t ∷ ts) same h =
    ground
      (arith, same t, get_task-update_where t.id p f ts same, IsUnique-update_where p f ts same h.1)
