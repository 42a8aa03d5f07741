-- ===== src/Planner/NextWave/OnePass.antt =====
-- The pages of `next_wave_objects` (app/main.py), and the inventory that is left after each.
use copy_s3_to_oci.Base.{
  ℕ, zero, suc, ◌+◌, ◌-◌, ◌<◌, ◌≡◌, refl, sym, ap, subst, ◌∙◌, Bool, true, false, not, ◌&&◌, Option,
  none, some, List, [], ◌∷◌, ◌++◌, ◌==◌, ltb, select, order_by, take, total, total-append, ◌≤◌,
  length, take-append-drop, length-drop, length-order_by, arith, inl, inr, Bool-cases,
  if◌then◌else◌,
}
use copy_s3_to_oci.Simulator.Pages.{by_key, key_of, last_of}
use copy_s3_to_oci.Simulator.Pages.Sorted.{AreDistinct, select_after}
use copy_s3_to_oci.Simulator.Pages.Complete.{
  left, page_query, last_taken, left-after, left-IsAscending, left-none,
}
use copy_s3_to_oci.Planner.NextWave.{
  Candidate, rank_of, is_empty, Scan, scan, after_scan, turn, next_from, next_wave_objects,
}
use copy_s3_to_oci.Planner.NextWave.Scan.{returned, goes_on}

abbrev continued : ℕ → List Candidate → Scan → Scan
unfolding scan
continued max_bytes rows (returned r) = returned r
continued max_bytes rows (goes_on selected remaining) = scan max_bytes selected remaining rows

continued-if :
    (b : Bool) (max_bytes : ℕ) (rows : List Candidate) (x y : Scan)
    → continued max_bytes rows (if b then x else y)
      ≡ (if b then continued max_bytes rows x else continued max_bytes rows y)
unfolding continued
continued-if true max_bytes rows x y = refl
continued-if false max_bytes rows x y = refl

scan-append :
    (max_bytes remaining : ℕ) (selected first rest : List Candidate)
    → scan max_bytes selected remaining (first ++ rest)
      ≡ continued max_bytes rest (scan max_bytes selected remaining first)
unfolding scan continued
scan-append max_bytes remaining selected [] rest = refl
scan-append max_bytes remaining selected (o ∷ first) rest =
    let later = scan-append max_bytes (remaining - o.size_bytes) (selected ++ o ∷ []) first rest in
    elim (Bool-cases (ltb max_bytes o.size_bytes)) [
      | inl e ↦ rw (e, if◌then◌else◌) refl
      | inr e ↦ elim (Bool-cases (not (is_empty selected) && ltb remaining o.size_bytes)) [
        | inl f ↦ rw (e, f, if◌then◌else◌) refl
        | inr f ↦ elim (Bool-cases (remaining - o.size_bytes == 0)) [
          | inl g ↦ rw (e, f, g, if◌then◌else◌) refl
          | inr g ↦ rw (e, f, g, if◌then◌else◌) later
        ]
      ]
    ]

abbrev pub ended : Scan → List Candidate × Bool
ended (returned r) = r
ended (goes_on selected remaining) = (selected, false)

abbrev pub bytes : List Candidate → ℕ
bytes objects = total (λ o. o.size_bytes) objects

-- The wave is within its size, or it is marked as beyond it.
abbrev pub IsSized : ℕ → List Candidate × Bool → Type 0
IsSized max_bytes (objects, true) = max_bytes < bytes objects
IsSized max_bytes (objects, false) = bytes objects ≤ max_bytes

if_holds {ℓ κ} :
    {A : Type ℓ} (P : A → Type κ) (b : Bool) {x y : A}
    → (b ≡ true → P x)
    → (b ≡ false → P y)
    → P (if b then x else y)
if_holds P true f g = f refl
if_holds P false f g = g refl

ended_early :
    (max_bytes remaining : ℕ) (selected : List Candidate) (o : Candidate)
    → bytes selected + remaining ≡ max_bytes
    → max_bytes < o.size_bytes
    → IsSized max_bytes (if is_empty selected then (o ∷ [], true) else (selected, false))
ended_early max_bytes remaining [] o sum large = omega arith
ended_early max_bytes remaining (s ∷ selected) o sum large = omega arith

fits_in :
    (max_bytes remaining : ℕ) (selected : List Candidate) (o : Candidate)
    → bytes selected + remaining ≡ max_bytes
    → ltb max_bytes o.size_bytes ≡ false
    → (not (is_empty selected) && ltb remaining o.size_bytes) ≡ false
    → bytes (selected ++ o ∷ []) + (remaining - o.size_bytes) ≡ max_bytes
fits_in max_bytes remaining [] o sum small free =
    let le : o.size_bytes ≤ max_bytes = ground arith in omega arith
fits_in max_bytes remaining (s ∷ selected) o sum small free =
    let le : o.size_bytes ≤ remaining = ground arith in
    omega (arith, total-append (λ o. o.size_bytes) (s ∷ selected) (o ∷ []))

scan-IsSized :
    (max_bytes remaining : ℕ) (selected rows : List Candidate)
    → bytes selected + remaining ≡ max_bytes
    → IsSized max_bytes (ended (scan max_bytes selected remaining rows))
unfolding scan
scan-IsSized max_bytes remaining selected [] sum = omega arith
scan-IsSized max_bytes remaining selected (o ∷ rows) sum =
    let P : Scan → Type 0 = λ s. IsSized max_bytes (ended s) in
    if_holds P (ltb max_bytes o.size_bytes)
      (λ e. ended_early max_bytes remaining selected o sum (ground arith))
      (λ small.
        if_holds P (not (is_empty selected) && ltb remaining o.size_bytes) (λ _. omega arith)
          (λ free.
            let grown = fits_in max_bytes remaining selected o sum small free in
            if_holds P (remaining - o.size_bytes == 0) (λ _. omega arith)
              (λ _.
                scan-IsSized max_bytes (remaining - o.size_bytes) (selected ++ o ∷ []) rows grown)))

length_zero : {A : Type 0} (xs : List A) → length xs ≡ 0 → xs ≡ []
length_zero [] e = refl
length_zero (x ∷ xs) e = absurd (omega arith)

after_scan-continued :
    (fits : Candidate → Bool) (max_bytes limit : ℕ) (rows rest : List Candidate)
    (next : List Candidate → ℕ → List Candidate × Bool)
    → ((selected : List Candidate) (remaining : ℕ)
        → next selected remaining ≡ ended (scan max_bytes selected remaining rest))
    → (s : Scan) → after_scan fits max_bytes limit rows next s ≡ ended (continued max_bytes rest s)
unfolding continued
after_scan-continued fits max_bytes limit rows rest next h (returned r) = refl
after_scan-continued fits max_bytes limit rows rest next h (goes_on selected remaining) =
    h selected remaining

module _ (fits : Candidate → Bool) (max_bytes m : ℕ) (rows : List Candidate)
    (h : AreDistinct rank_of (select fits rows)) where
  abbrev inventory : Option ℕ → List Candidate
  inventory last = left rank_of fits rows h last

  -- The page and what comes after it, where some row is left.
  page_then_rest :
      (last : Option ℕ)
      → 0 < length (inventory last)
      → (o : Candidate) × (last_of (take (suc m) (inventory last)) ≡ some o)
        × (take (suc m) (inventory last) ++ inventory (some (rank_of o)) ≡ inventory last)
        × (length (inventory (some (rank_of o))) < length (inventory last))
  page_then_rest last some_left =
      let all = inventory last in
      let (o, e) = last_taken rank_of fits rows h m all some_left in
      let dropped =
        sym (select_after rank_of m all (left-IsAscending rank_of fits rows h last) e)
        ∙ left-after rank_of fits rows h last m e in
      let shorter = length-drop (suc m) all in
      (
        o,
        e,
        ap (λ v. take (suc m) all ++ v) (sym dropped) ∙ take-append-drop (suc m) all,
        omega (arith, ap length dropped, shorter, some_left),
      )

  turn-scan :
      (selected page : List Candidate) (remaining : ℕ) (o : Candidate)
      (next : Option ℕ → List Candidate → ℕ → List Candidate × Bool)
      → last_of page ≡ some o
      → turn fits max_bytes (suc m) rows selected remaining page next
        ≡ after_scan fits max_bytes
            (suc m)
            rows
            (next (some (rank_of o)))
            (scan max_bytes selected remaining page)
  unfolding turn
  turn-scan selected [] remaining o next e = cc
  turn-scan selected (x ∷ page) remaining o next e =
      ap
        (λ last.
          after_scan fits max_bytes (suc m) rows (next (key_of rank_of last))
            (scan max_bytes selected remaining (x ∷ page)))
        e

  next_from-scan :
      (fuel : ℕ) (last : Option ℕ) (selected : List Candidate) (remaining : ℕ)
      → length (inventory last) < fuel
      → next_from fits max_bytes (suc m) rows fuel last selected remaining
        ≡ ended (scan max_bytes selected remaining (inventory last))
  unfolding next_from turn
  next_from-scan zero last selected remaining short = absurd (omega arith)
  next_from-scan (suc fuel) last selected remaining short =
      let next = next_from fits max_bytes (suc m) rows fuel in
      let all = inventory last in
      ap (λ page. turn fits max_bytes (suc m) rows selected remaining (take (suc m) page) next)
        (page_query rank_of fits rows h last)
      ∙ elim (Bool-cases (length all == 0)) [
        | inl none_left ↦
            let empty : all ≡ [] = length_zero all (ground arith) in
            subst
              (λ xs.
                turn fits max_bytes (suc m) rows selected remaining (take (suc m) xs) next
                ≡ ended (scan max_bytes selected remaining xs))
              (sym empty) refl
        | inr some_left ↦
            let (o, e, joined, shorter) = page_then_rest last (ground arith) in
            let rest = inventory (some (rank_of o)) in
            turn-scan selected (take (suc m) all) remaining o next e
            ∙ after_scan-continued fits max_bytes (suc m) rows rest (next (some (rank_of o)))
                (λ s r. next_from-scan fuel (some (rank_of o)) s r (omega arith))
                (scan max_bytes selected remaining (take (suc m) all))
            ∙ ap ended (sym (scan-append max_bytes remaining selected (take (suc m) all) rest))
            ∙ ap (λ xs. ended (scan max_bytes selected remaining xs)) joined
      ]

-- Choosing a wave over pages of the inventory is choosing it in one pass: where no two of the
-- eligible rows have the same place in the order, and more pages may be read than there are
-- such rows, next_wave_objects returns what the loop over all of them in their order returns;
-- and the objects it returns are of at most max_bytes together, or the wave is marked as
-- oversized and exceeds it.
pub next_wave_objects-scan :
    (fits : Candidate → Bool) (max_bytes fuel : ℕ) (rows : List Candidate)
    → AreDistinct rank_of (select fits rows)
    → length (select fits rows) < fuel
    → (next_wave_objects fits max_bytes rows fuel
        ≡ ended (scan max_bytes [] max_bytes (order_by (by_key rank_of) (select fits rows))))
      × IsSized max_bytes (next_wave_objects fits max_bytes rows fuel)
unfolding next_wave_objects
next_wave_objects-scan fits max_bytes fuel rows h enough =
    let whole = left-none rank_of fits rows h in
    let size = length-order_by (by_key rank_of) (select fits rows) in
    let same =
      next_from-scan fits max_bytes 999 rows h fuel none [] max_bytes
        (omega (arith, ap length whole, size, enough))
      ∙ ap (λ xs. ended (scan max_bytes [] max_bytes xs)) whole in
    (
      same,
      subst (IsSized max_bytes) (sym same) (
          scan-IsSized max_bytes max_bytes [] (order_by (by_key rank_of) (select fits rows))
            (omega arith)),
    )
