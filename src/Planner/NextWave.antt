-- ===== src/Planner/NextWave.antt =====
-- `next_wave_objects` of app/main.py: the objects of a planned wave, chosen over pages of the inventory. The
-- rank of a row is its place in the order by key and id; the query's filters and the rows that another
-- transaction has locked are the argument `fits`.
pub mod OnePass
mod Tests
use copy_s3_to_oci.Base.{
  ℕ, zero, suc, ◌-◌, Bool, true, false, not, ◌&&◌, Option, none, some, List, [], ◌∷◌, ◌++◌, ◌==◌,
  ltb, select, order_by, take, if◌then◌else◌,
}
use copy_s3_to_oci.Simulator.Pages.{by_key, is_after, key_of, last_of}

pub record Candidate : Type 0 where
  pub rank : ℕ
  pub size_bytes : ℕ

abbrev pub rank_of : Candidate → ℕ
rank_of o = o.rank

abbrev pub is_empty : List Candidate → Bool
is_empty [] = true
is_empty (o ∷ os) = false

-- The loop over a page has returned, or goes on with what is selected and the bytes that remain.
pub data Scan : Type 0 where
  returned : List Candidate × Bool → Scan
  goes_on : List Candidate → ℕ → Scan

unfoldable pub scan : ℕ → List Candidate → ℕ → List Candidate → Scan
scan max_bytes selected remaining [] = goes_on selected remaining
scan max_bytes selected remaining (o ∷ rows) =
    let rest = scan max_bytes (selected ++ o ∷ []) (remaining - o.size_bytes) rows in
    if ltb max_bytes o.size_bytes
    then returned (if is_empty selected then (o ∷ [], true) else (selected, false))
    else if not (is_empty selected) && ltb remaining o.size_bytes
    then returned (selected, false)
    else if remaining - o.size_bytes == 0
    then returned (selected ++ o ∷ [], false)
    else rest

module _ (fits : Candidate → Bool) (max_bytes limit : ℕ) (rows : List Candidate) where
  abbrev pub query : Option ℕ → List Candidate
  query last =
      take limit (order_by (by_key rank_of) (select (λ o. fits o && is_after rank_of last o) rows))

  abbrev pub after_scan :
      (List Candidate → ℕ → List Candidate × Bool) → Scan → List Candidate × Bool
  after_scan next (returned r) = r
  after_scan next (goes_on selected remaining) = next selected remaining

  abbrev pub turn :
      List Candidate
      → ℕ
      → List Candidate
      → (Option ℕ → List Candidate → ℕ → List Candidate × Bool)
      → List Candidate × Bool
  unfolding scan
  turn selected remaining [] next = (selected, false)
  turn selected remaining (o ∷ page) next =
      after_scan (next (key_of rank_of (last_of (o ∷ page))))
        (scan max_bytes selected remaining (o ∷ page))

  unfoldable pub next_from : ℕ → Option ℕ → List Candidate → ℕ → List Candidate × Bool
  unfolding turn
  next_from zero last selected remaining = (selected, false)
  next_from (suc fuel) last selected remaining =
      turn selected remaining (query last) (next_from fuel)

-- The pages have 1000 rows.
unfoldable pub next_wave_objects :
    (Candidate → Bool) → ℕ → List Candidate → ℕ → List Candidate × Bool
unfolding next_from
next_wave_objects fits max_bytes rows fuel =
    next_from fits max_bytes 1000 rows fuel none [] max_bytes
