-- ===== src/Simulator/Pages/Sorted.antt =====
-- Sorting by a key that no two rows share, and the rows after one of them.
use copy_s3_to_oci.Base.{
  ℕ, zero, suc, ◌<◌, ◌≤◌, ◌≡◌, refl, sym, ap, subst, ◌∙◌, Bool, true, false, ◌&&◌, some, List, [],
  ◌∷◌, ◌==◌, ltb, lt→ltb, select, order_by, insert_by, take, drop, All, All-insert_by, All-order_by,
  All-select, arith, inl, inr, Bool-cases, if◌then◌else◌,
}
use copy_s3_to_oci.Simulator.Pages.{last_of, by_key}

module _ {A : Type 0} (key : A → ℕ) where
  abbrev pub AreDistinct : List A → Type 0
  AreDistinct [] = Unit
  AreDistinct (x ∷ xs) = All (λ y. (key x == key y) ≡ false) xs × AreDistinct xs

  abbrev pub IsAscending : List A → Type 0
  IsAscending [] = Unit
  IsAscending (x ∷ xs) = All (λ y. key x < key y) xs × IsAscending xs

  some_same : {a b : A} → some a ≡ some b → a ≡ b
  some_same e = cc

  later_All :
      (x y : A) (ys : List A)
      → key x < key y
      → All (λ z. key y < key z) ys
      → All (λ z. key x < key z) ys
  later_All x y [] h all = tt
  later_All x y (z ∷ zs) h (here, rest) = (omega arith, later_All x y zs h rest)

  insert_by-IsAscending :
      (x : A) (ys : List A)
      → All (λ y. (key x == key y) ≡ false) ys
      → IsAscending ys
      → IsAscending (insert_by (by_key key) x ys)
  insert_by-IsAscending x [] apart h = (tt, tt)
  insert_by-IsAscending x (y ∷ ys) (here, rest) (above, h) = elim (Bool-cases (by_key key x y)) [
    | inl e ↦
        let less : key x < key y = ground arith in
        rw (e, insert_by) ((less, later_All x y ys less above), (above, h))
    | inr e ↦
        rw (e, insert_by)
          (
            All-insert_by (λ z. key y < key z) (by_key key) x ys (ground arith) above,
            insert_by-IsAscending x ys rest h,
          )
  ]

  insert_by-first :
      (x : A) (ys : List A) → All (λ z. key x ≤ key z) ys → insert_by (by_key key) x ys ≡ x ∷ ys
  insert_by-first x [] h = refl
  insert_by-first x (y ∷ ys) (less, rest) =
      let e : by_key key x y ≡ true = ground arith in rw (e, insert_by) refl

  weaker_All :
      (x : A) (y : A) (ys : List A)
      → key x ≤ key y
      → All (λ z. key y < key z) ys
      → All (λ z. key x ≤ key z) ys
  weaker_All x y [] h all = tt
  weaker_All x y (z ∷ zs) h (here, rest) = (omega arith, weaker_All x y zs h rest)

  -- What a query keeps of a row that is put in its place.
  kept_insert_by : Bool → A → List A → List A
  kept_insert_by b x ys = if b then insert_by (by_key key) x ys else ys

  select-insert_by :
      (q : A → Bool) (x : A) (ys : List A)
      → IsAscending ys
      → select q (insert_by (by_key key) x ys) ≡ kept_insert_by (q x) x (select q ys)
  unfolding kept_insert_by
  select-insert_by q x [] h = refl
  select-insert_by q x (y ∷ ys) (above, h) = elim (Bool-cases (by_key key x y)) [
    | inl e ↦ elim (Bool-cases (q x)) [
      | inr gone ↦ rw (e, insert_by, gone, if◌then◌else◌) refl
      | inl kept ↦
          let less : key x ≤ key y = ground arith in
          let all =
            All-select (λ z. key x ≤ key z) q (y ∷ ys) (less, weaker_All x y ys less above) in
          rw (e, insert_by, kept, if◌then◌else◌) (sym (insert_by-first x (select q (y ∷ ys)) all))
    ]
    | inr e ↦
        let rest = select-insert_by q x ys h in
        elim (Bool-cases (q x)) [
          | inr gone ↦
              let less = rest ∙ ap (λ b. kept_insert_by b x (select q ys)) gone in
              elim (Bool-cases (q y)) [
                | inl is ↦ rw (e, insert_by, gone, is, if◌then◌else◌) (ap (◌∷◌ y) less)
                | inr not_ ↦ rw (e, insert_by, gone, not_, if◌then◌else◌) less
              ]
          | inl kept ↦
              let more = rest ∙ ap (λ b. kept_insert_by b x (select q ys)) kept in
              elim (Bool-cases (q y)) [
                | inl is ↦
                    rw (e, insert_by, kept, is, if◌then◌else◌)
                      (rw (e, if◌then◌else◌) (ap (◌∷◌ y) more))
                | inr not_ ↦ rw (e, insert_by, kept, not_, if◌then◌else◌) more
              ]
        ]
  ]

  pub order_by-IsAscending : (xs : List A) → AreDistinct xs → IsAscending (order_by (by_key key) xs)
  order_by-IsAscending [] h = tt
  order_by-IsAscending (x ∷ xs) (apart, h) =
      insert_by-IsAscending x (order_by (by_key key) xs)
        (All-order_by (λ y. (key x == key y) ≡ false) (by_key key) xs apart)
        (order_by-IsAscending xs h)

  kept-order_by :
      (b : Bool) (x : A) (ys : List A)
      → order_by (by_key key) (if b then x ∷ ys else ys)
        ≡ kept_insert_by b x (order_by (by_key key) ys)
  unfolding kept_insert_by
  kept-order_by true x ys = refl
  kept-order_by false x ys = refl

  pub order_by-select :
      (q : A → Bool) (xs : List A)
      → AreDistinct xs
      → order_by (by_key key) (select q xs) ≡ select q (order_by (by_key key) xs)
  order_by-select q [] h = refl
  order_by-select q (x ∷ xs) (apart, h) =
      kept-order_by (q x) x (select q xs)
      ∙ ap (kept_insert_by (q x) x) (order_by-select q xs h)
      ∙ sym (select-insert_by q x (order_by (by_key key) xs) (order_by-IsAscending xs h))

  pub select-both :
      (p r : A → Bool) (xs : List A) → select (λ x. p x && r x) xs ≡ select r (select p xs)
  select-both p r [] = refl
  select-both p r (x ∷ xs) = elim (Bool-cases (p x)) [
    | inl e ↦ rw e (ap (λ zs. if r x then x ∷ zs else zs) (select-both p r xs))
    | inr e ↦ rw e (select-both p r xs)
  ]

  -- The rows after the last one of a page are the rest.
  select-All :
      (x : A) (ys : List A)
      → All (λ y. key x < key y) ys
      → select (λ y. ltb (key x) (key y)) ys ≡ ys
  select-All x [] h = refl
  select-All x (y ∷ ys) (less, rest) =
      rw (lt→ltb (key x) (key y) less, if◌then◌else◌) (ap (◌∷◌ y) (select-All x ys rest))

  pub last_of-All :
      (P : A → Type 0) (n : ℕ) (ys : List A) {x : A} → All P ys → last_of (take n ys) ≡ some x → P x
  last_of-All P zero ys h e = cc
  last_of-All P (suc n) [] h e = cc
  last_of-All P (suc zero) (y ∷ ys) h e = subst P (some_same e) h.0
  last_of-All P (suc (suc n)) (y ∷ []) h e = subst P (some_same e) h.0
  last_of-All P (suc (suc n)) (y ∷ z ∷ zs) h e = last_of-All P (suc n) (z ∷ zs) h.1 e

  select_after_first :
      (y : A) (ys : List A) {x : A}
      → All (λ z. key y < key z) ys
      → some y ≡ some x
      → select (λ z. ltb (key x) (key z)) (y ∷ ys) ≡ ys
  select_after_first y ys above e =
      let off : ltb (key y) (key y) ≡ false = ground arith in
      subst (λ w. select (λ z. ltb (key w) (key z)) (y ∷ ys) ≡ ys) (some_same e)
        (rw (off, if◌then◌else◌) (select-All y ys above))

  pub select_after :
      (n : ℕ) (ys : List A) {x : A}
      → IsAscending ys
      → last_of (take (suc n) ys) ≡ some x
      → select (λ y. ltb (key x) (key y)) ys ≡ drop (suc n) ys
  select_after n [] h e = cc
  select_after zero (y ∷ ys) (above, h) e = select_after_first y ys above e
  select_after (suc n) (y ∷ []) (above, h) e = select_after_first y [] above e
  select_after (suc n) (y ∷ z ∷ zs) {x} (above, h) e =
      let less : key y < key x = last_of-All (λ z. key y < key z) (suc n) (z ∷ zs) above e in
      let off : ltb (key x) (key y) ≡ false = ground arith in
      rw (off, if◌then◌else◌) (select_after n (z ∷ zs) h e)
