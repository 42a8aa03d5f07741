-- ===== src/Simulator/Pages/Complete.antt =====
-- A client of the listings of app/simulation_engine.py, and what is left after a token.
use copy_s3_to_oci.Base.{
  ℕ, zero, suc, ◌+◌, ◌<◌, ◌≤◌, ◌≡◌, ◌⊎◌, refl, sym, ap, ◌∙◌, Bool, true, ◌&&◌, Option, none, some,
  List, [], ◌∷◌, ◌++◌, ◌==◌, ltb, select, order_by, take, length, take-append-drop, length-drop,
  length-take, All-select, All-select_self, arith, inl, inr, Bool-cases, if◌then◌else◌,
  length-order_by,
}
use copy_s3_to_oci.Simulator.Pages.{
  Listed, JobResult, last_of, by_key, is_after, key_of, paged, page, with_rest, follow,
  list_objects, describe_restore_job,
}
use copy_s3_to_oci.Simulator.Pages.Sorted.{
  AreDistinct, IsAscending, order_by-IsAscending, order_by-select, select-both, select_after,
  last_of-All,
}

module _ {A : Type 0} (key : A → ℕ) (p : A → Bool) (rows : List A)
    (h : AreDistinct key (select p rows)) where
  unfoldable pub sorted : List A
  sorted = order_by (by_key key) (select p rows)

  -- What is left of the listing after a token.
  unfoldable pub left : Option ℕ → List A
  left token = select (is_after key token) sorted

  pub page_query :
      (token : Option ℕ)
      → order_by (by_key key) (select (λ x. p x && is_after key token x) rows) ≡ left token
  unfolding left sorted
  page_query token =
      ap (order_by (by_key key)) (select-both key p (is_after key token) rows)
      ∙ order_by-select key (is_after key token) (select p rows) h

  take_less : (n m : ℕ) (xs : List A) → n ≤ m → take n (take m xs) ≡ take n xs
  take_less zero m xs le = refl
  take_less (suc n) zero xs le = absurd (omega arith)
  take_less (suc n) (suc m) [] le = refl
  take_less (suc n) (suc m) (x ∷ xs) le = ap (◌∷◌ x) (take_less n m xs (omega arith))

  take_whole : (n : ℕ) (xs : List A) → length xs ≤ n → take n xs ≡ xs
  take_whole zero [] le = refl
  take_whole zero (x ∷ xs) le = absurd (omega arith)
  take_whole (suc n) [] le = refl
  take_whole (suc n) (x ∷ xs) le = ap (◌∷◌ x) (take_whole n xs (omega arith))

  last_some : (x : A) (xs : List A) → (y : A) × (last_of (x ∷ xs) ≡ some y)
  last_some x [] = (x, refl)
  last_some x (y ∷ ys) = last_some y ys

  pub last_taken :
      (n : ℕ) (xs : List A) → 0 < length xs → (y : A) × (last_of (take (suc n) xs) ≡ some y)
  last_taken n [] pos = absurd (omega arith)
  last_taken n (x ∷ xs) pos = last_some x (take n xs)

  module _ (m : ℕ) where
    abbrev page_of : List A → List A × Option ℕ
    page_of xs = paged key (suc m) (take (suc m + 1) xs)

    -- A page, and what comes after it.
    paged-splits :
        (xs : List A)
        → IsAscending key xs
        → (((page_of xs).1 ≡ none) × ((page_of xs).0 ≡ xs))
          ⊎ ((last : A) × ((page_of xs).1 ≡ some (key last))
              × (last_of (take (suc m) xs) ≡ some last)
              × ((page_of xs).0 ++ select (is_after key (some (key last))) xs ≡ xs)
              × (length (select (is_after key (some (key last))) xs) < length xs))
    paged-splits xs ascending =
        let items = take (suc m + 1) xs in
        let count = length-take (suc m + 1) xs in
        let shown = take_less (suc m) (suc m + 1) xs (omega arith) in
        elim (Bool-cases (ltb (suc m) (length items))) [
          | inr few ↦
              let short : length xs ≤ suc m = ground arith in
              inl (
                ap (λ b. if b then key_of key (last_of (take (suc m) items)) else none) few,
                shown ∙ take_whole (suc m) xs short,
              )
          | inl many ↦
              let long : suc m < length xs = ground arith in
              let (last, e) = last_taken m xs (omega arith) in
              let rest = select_after key m xs ascending e in
              let kept = length-drop (suc m) xs in
              let shorter : length (select (is_after key (some (key last))) xs) < length xs =
                omega (arith, ap length rest, kept, long) in
              inr (
                last,
                ap (λ b. if b then key_of key (last_of (take (suc m) items)) else none) many
                    ∙ ap (key_of key) (ap last_of shown ∙ e),
                e,
                ap (λ v. v ++ select (is_after key (some (key last))) xs) shown
                    ∙ ap (λ v. take (suc m) xs ++ v) rest
                    ∙ take-append-drop (suc m) xs,
                shorter,
              )
        ]

  select-implied :
      (q r : A → Bool)
      → ((x : A) → r x ≡ true → q x ≡ true)
      → (xs : List A) → select r (select q xs) ≡ select r xs
  select-implied q r f [] = refl
  select-implied q r f (x ∷ xs) = elim (Bool-cases (r x)) [
    | inl e ↦
        rw (f x e, if◌then◌else◌) (rw (e, if◌then◌else◌) (ap (◌∷◌ x) (select-implied q r f xs)))
    | inr e ↦ elim (Bool-cases (q x)) [
      | inl is ↦ rw (is, if◌then◌else◌) (rw (e, if◌then◌else◌) (select-implied q r f xs))
      | inr not_ ↦ rw (not_, e, if◌then◌else◌) (select-implied q r f xs)
    ]
  ]

  select-IsAscending :
      (q : A → Bool) (xs : List A) → IsAscending key xs → IsAscending key (select q xs)
  select-IsAscending q [] asc = tt
  select-IsAscending q (x ∷ xs) (above, asc) = elim (Bool-cases (q x)) [
    | inl e ↦
        rw (e, if◌then◌else◌)
          (All-select (λ y. key x < key y) q xs above, select-IsAscending q xs asc)
    | inr e ↦ rw (e, if◌then◌else◌) (select-IsAscending q xs asc)
  ]

  pub left-IsAscending : (token : Option ℕ) → IsAscending key (left token)
  unfolding left sorted
  left-IsAscending token =
      select-IsAscending (is_after key token) sorted (order_by-IsAscending key (select p rows) h)

  implied :
      (token : Option ℕ) (m : ℕ) (last : A)
      → last_of (take (suc m) (left token)) ≡ some last
      → (x : A) → is_after key (some (key last)) x ≡ true
      → is_after key token x ≡ true
  unfolding left
  implied none m last e x beyond = refl
  implied (some t) m last e x beyond =
      let past : ltb t (key last) ≡ true =
        last_of-All key (λ z. is_after key (some t) z ≡ true) (suc m) (left (some t))
          (All-select_self (is_after key (some t)) sorted) e in
      ground arith

  pub left-after :
      (token : Option ℕ) (m : ℕ) {last : A}
      → last_of (take (suc m) (left token)) ≡ some last
      → select (is_after key (some (key last))) (left token) ≡ left (some (key last))
  unfolding left
  left-after token m {last} e =
      select-implied (is_after key token) (is_after key (some (key last))) (implied token m last e)
        sorted

  follow-left :
      (m fuel : ℕ) (token : Option ℕ)
      → length (left token) < fuel
      → follow (λ t. page key p (suc m) t rows) fuel token ≡ left token
  unfolding follow page
  follow-left m zero token short = absurd (omega arith)
  follow-left m (suc fuel) token short =
      let rest = follow (λ t. page key p (suc m) t rows) fuel in
      ap (λ xs. with_rest (page_of m xs).0 (page_of m xs).1 rest) (page_query token)
      ∙ elim (paged-splits m (left token) (left-IsAscending token)) [
        | inl (ends, whole) ↦ ap (λ o. with_rest (page_of m (left token)).0 o rest) ends ∙ whole
        | inr (last, next, e, joined, shorter) ↦
            let later = left-after token m e in
            ap (λ o. with_rest (page_of m (left token)).0 o rest) next
            ∙ ap (λ v. (page_of m (left token)).0 ++ v)
                (follow-left m fuel (some (key last))
                    (omega (arith, ap length later, shorter, short))
                  ∙ sym later)
            ∙ joined
      ]

select-true : {A : Type 0} (xs : List A) → select (λ x. true) xs ≡ xs
select-true [] = refl
select-true (x ∷ xs) = ap (◌∷◌ x) (select-true xs)

pub left-none :
    {A : Type 0} (key : A → ℕ) (p : A → Bool) (rows : List A) (h : AreDistinct key (select p rows))
    → left key p rows h none ≡ order_by (by_key key) (select p rows)
unfolding left sorted
left-none key p rows h = select-true (order_by (by_key key) (select p rows))

follow-order_by :
    {A : Type 0} (key : A → ℕ) (p : A → Bool) (rows : List A) (max_keys fuel : ℕ)
    → AreDistinct key (select p rows)
    → 0 < max_keys
    → length (select p rows) < fuel
    → follow (λ t. page key p max_keys t rows) fuel none ≡ order_by (by_key key) (select p rows)
unfolding left sorted
follow-order_by key p rows zero fuel h pos enough = absurd (omega arith)
follow-order_by key p rows (suc m) fuel h pos enough =
    let whole : left key p rows h none ≡ order_by (by_key key) (select p rows) =
      select-true (order_by (by_key key) (select p rows)) in
    let size = length-order_by (by_key key) (select p rows) in
    follow-left key p rows h m fuel none (omega (arith, ap length whole, size, enough)) ∙ whole

-- A client that follows the continuation tokens of a listing, with pages of any positive size,
-- reads every object of the bucket under the prefix once and in the order of the keys, where no
-- two of these objects share a key; as many requests as there are objects, and one, are enough.
pub follow-list_objects :
    (bucket : ℕ) (matches : ℕ → Bool) (rows : List Listed) (max_keys fuel : ℕ)
    → let listed = select (λ o. (o.bucket == bucket) && matches o.key) rows in
      AreDistinct (λ (o : Listed). o.key) listed
      → 0 < max_keys
      → length listed < fuel
      → follow (λ token. list_objects bucket matches token max_keys rows) fuel none
        ≡ order_by (by_key (λ o. o.key)) listed
unfolding list_objects
follow-list_objects bucket matches rows max_keys fuel h pos enough =
    follow-order_by (λ o. o.key) (λ o. (o.bucket == bucket) && matches o.key) rows max_keys fuel h
      pos enough

-- The same for the results of a restore job.
pub follow-describe_restore_job :
    (job : ℕ) (rows : List JobResult) (max_results fuel : ℕ)
    → let results = select (λ r. r.job == job) rows in
      AreDistinct (λ (r : JobResult). r.key) results
      → 0 < max_results
      → length results < fuel
      → follow (λ token. describe_restore_job job token max_results rows) fuel none
        ≡ order_by (by_key (λ r. r.key)) results
unfolding describe_restore_job
follow-describe_restore_job job rows max_results fuel h pos enough =
    follow-order_by (λ r. r.key) (λ r. r.job == job) rows max_results fuel h pos enough
