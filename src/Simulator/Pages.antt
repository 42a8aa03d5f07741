-- ===== src/Simulator/Pages.antt =====
-- Listings by pages in app/simulation_engine.py: `list_objects` and `describe_restore_job`. A key is its rank
-- in the order of the database, and a continuation token the key it encodes; a token that cannot be decoded,
-- a bucket and a job that do not exist are refused before the query.
pub mod Sorted
pub mod Complete
mod Tests
use copy_s3_to_oci.Base.{
  ℕ, zero, suc, ◌+◌, Bool, true, false, ◌&&◌, Option, none, some, List, [], ◌∷◌, ◌++◌, ◌==◌, ltb,
  leb, select, order_by, take, length, if◌then◌else◌,
}

pub record Listed : Type 0 where
  pub bucket : ℕ
  pub key : ℕ
  pub size_bytes : ℕ

pub record JobResult : Type 0 where
  pub job : ℕ
  pub key : ℕ
  pub accepted : Bool

abbrev pub last_of {ℓ} : {A : Type ℓ} → List A → Option A
last_of [] = none
last_of (x ∷ []) = some x
last_of (x ∷ y ∷ ys) = last_of (y ∷ ys)

module _ {A : Type 0} (key : A → ℕ) where
  abbrev pub by_key : A → A → Bool
  by_key x y = leb (key x) (key y)

  abbrev pub is_after : Option ℕ → A → Bool
  is_after none x = true
  is_after (some last) x = ltb last (key x)

  abbrev pub key_of : Option A → Option ℕ
  key_of none = none
  key_of (some x) = some (key x)

  -- What the rows that the query returned, one more than a page has, give to the caller.
  abbrev pub paged : ℕ → List A → List A × Option ℕ
  paged max_keys items =
      let visible = take max_keys items in
      (visible, if ltb max_keys (length items) then key_of (last_of visible) else none)

  unfoldable pub page : (A → Bool) → ℕ → Option ℕ → List A → List A × Option ℕ
  page p max_keys token rows =
      paged max_keys
        (take (max_keys + 1) (order_by by_key (select (λ x. p x && is_after token x) rows)))

module _ {A : Type 0} where
  abbrev pub with_rest : List A → Option ℕ → (Option ℕ → List A) → List A
  with_rest visible none rest = visible
  with_rest visible (some last) rest = visible ++ rest (some last)

  -- A client that asks for the next page as long as it is given a token.
  unfoldable pub follow : (Option ℕ → List A × Option ℕ) → ℕ → Option ℕ → List A
  follow ask zero token = []
  follow ask (suc fuel) token =
      let (visible, next) = ask token in with_rest visible next (follow ask fuel)

-- `matches` is the test for the prefix.
unfoldable pub list_objects : ℕ → (ℕ → Bool) → Option ℕ → ℕ → List Listed → List Listed × Option ℕ
unfolding page
list_objects bucket matches token max_keys rows =
    page (λ o. o.key) (λ o. (o.bucket == bucket) && matches o.key) max_keys token rows

unfoldable pub describe_restore_job : ℕ → Option ℕ → ℕ → List JobResult → List JobResult × Option ℕ
unfolding page
describe_restore_job job token max_results rows =
    page (λ r. r.key) (λ r. r.job == job) max_results token rows
