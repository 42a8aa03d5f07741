-- ===== src/Planner/Dynamic/Slices.antt =====
-- The objects of the dynamic plan, and repeated planning of the next wave.
use copy_s3_to_oci.Base.{
  ℕ, suc, ◌+◌, ◌≤◌, ◌≡◌, refl, sym, ap, ◌∙◌, true, false, ◌&&◌, some, List, [], ◌∷◌, arith, ◌==◌,
  length, total, total-append, drop, if◌then◌else◌, Bool-cases, inl, inr,
}
use copy_s3_to_oci.Planner.Dynamic.{
  Plan, Filling, Slice, nothing, with_object, single, exceeds, oversized, slice, flush, start, pack,
  pack_all, dynamic_wave_plan, fill_next, next_dynamic_wave_plan,
}

module _ (p : Plan) where
  -- One row adds one object and its bytes to what is done or being filled.
  pack-count :
      (f : Filling) (size : ℕ)
      → total (λ s. s.object_count) (pack p f size).0 + (pack p f size).1.count ≡ f.count + 1
  unfolding pack start
  pack-count f size = ground arith

  pack-bytes :
      (f : Filling) (size : ℕ)
      → (f.count ≡ 0 → f.bytes ≡ 0)
      → total (λ s. s.bytes) (pack p f size).0 + (pack p f size).1.bytes ≡ f.bytes + size
  unfolding pack start
  pack-bytes f size h = ground (arith, h)

  pack_all-count :
      (f : Filling) (sizes : List ℕ)
      → total (λ s. s.object_count) (pack_all p f sizes) ≡ f.count + length sizes
  unfolding pack_all
  pack_all-count f [] = ground arith
  pack_all-count f (size ∷ sizes) = omega (
    arith,
    total-append (λ s. s.object_count) (pack p f size).0 _,
    pack_all-count (pack p f size).1 sizes,
    pack-count f size,
  )

  -- Nothing is counted in bytes before an object is.
  pack-empty : (f : Filling) (size : ℕ) → (pack p f size).1.count ≡ 0 → (pack p f size).1.bytes ≡ 0
  unfolding pack start
  pack-empty f size = ground arith

  pack_all-bytes :
      (f : Filling) (sizes : List ℕ)
      → (f.count ≡ 0 → f.bytes ≡ 0)
      → total (λ s. s.bytes) (pack_all p f sizes) ≡ f.bytes + total (λ n. n) sizes
  unfolding pack_all
  pack_all-bytes f [] h = ground (arith, h)
  pack_all-bytes f (size ∷ sizes) h = omega (
    arith,
    total-append (λ s. s.bytes) (pack p f size).0 _,
    pack_all-bytes (pack p f size).1 sizes (pack-empty f size),
    pack-bytes f size h,
  )

-- The dynamic plan loses nothing: its waves hold as many objects and as many bytes as were
-- given.
pub dynamic_wave_plan-total :
    (p : Plan) (sizes : List ℕ)
    → (total (λ s. s.object_count) (dynamic_wave_plan p sizes) ≡ length sizes)
      × (total (λ s. s.bytes) (dynamic_wave_plan p sizes) ≡ total (λ n. n) sizes)
unfolding dynamic_wave_plan
dynamic_wave_plan-total p sizes = (
  omega (arith, pack_all-count p nothing sizes),
  omega (arith, pack_all-bytes p nothing sizes (λ _. refl)),
)

-- Planning the next wave finds a wave with `k` objects more than are being filled, and the plan of
-- all waves is this one, then the plan of the objects that it leaves.
Next : Plan → Filling → List ℕ → Type 0
Next p f sizes =
    (s : Slice) × (k : ℕ) × (fill_next p f sizes ≡ some s)
    × (s.object_count ≡ f.count + k)
    × (pack_all p f sizes ≡ s ∷ pack_all p nothing (drop k sizes))

module _ (p : Plan) where
  -- Where a wave is full, the object begins the next one.
  full-Next :
      (f : Filling) (size : ℕ) (sizes : List ℕ)
      → (f.count == 0) ≡ false
      → exceeds p (with_object p f size) ≡ true
      → Next p f (size ∷ sizes)
  unfolding Next fill_next pack_all pack start
  full-Next f size sizes some_ full =
      (slice p false f, 0, rw (some_, full, if◌then◌else◌) refl, omega arith, rw (some_, full) refl)

  -- Where it is not full, the object is added.
  grown-Next :
      (f : Filling) (size : ℕ) (sizes : List ℕ)
      → (f.count == 0) ≡ false
      → exceeds p (with_object p f size) ≡ false
      → Next p (with_object p f size) sizes
      → Next p f (size ∷ sizes)
  unfolding Next fill_next pack_all pack
  grown-Next f size sizes some_ room (s, k, found, count, rest) =
      let not_first : (f.count + 1 == 1) ≡ false = ground arith in
      (
        s,
        suc k,
        rw (some_, room, not_first, if◌then◌else◌) found,
        omega (arith, count),
        rw (some_, room, if◌then◌else◌) rest,
      )

  last-Next : (f : Filling) → (f.count == 0) ≡ false → Next p f []
  unfolding Next fill_next pack_all flush
  last-Next f some_ = (
    slice p false f,
    0,
    rw (some_, if◌then◌else◌) refl,
    omega arith,
    rw (some_, if◌then◌else◌) refl,
  )

  filling-Next : (f : Filling) (sizes : List ℕ) → (f.count == 0) ≡ false → Next p f sizes
  filling-Next f [] some_ = last-Next f some_
  filling-Next f (size ∷ sizes) some_ = elim (Bool-cases (exceeds p (with_object p f size))) [
    | inl full ↦ full-Next f size sizes some_ full
    | inr room ↦
        grown-Next f size sizes some_ room
          (filling-Next (with_object p f size) sizes (ground arith))
  ]

  with_nothing : (size : ℕ) → with_object p nothing size ≡ single p size
  with_nothing size = ground arith

  first-step :
      (size : ℕ) (sizes : List ℕ)
      → fill_next p nothing (size ∷ sizes) ≡ (
          if oversized p (single p size)
          then some (slice p true (single p size))
          else fill_next p (single p size) sizes)
  unfolding fill_next
  first-step size sizes =
      ap
        (λ (g : Filling).
          if g.count == 1 && oversized p g then some (slice p true g) else fill_next p g sizes)
        (with_nothing size)

  first-Next :
      (size : ℕ) (sizes : List ℕ)
      → (s : Slice) × (k : ℕ) × (fill_next p nothing (size ∷ sizes) ≡ some s)
        × (s.object_count ≡ suc k)
        × (pack_all p nothing (size ∷ sizes) ≡ s ∷ pack_all p nothing (drop k sizes))
  unfolding pack_all pack start flush Next
  first-Next size sizes = elim (Bool-cases (oversized p (single p size))) [
    | inl big ↦ (
      slice p true (single p size),
      0,
      first-step size sizes ∙ rw (big, if◌then◌else◌) refl,
      refl,
      rw (big, if◌then◌else◌) refl,
    )
    | inr fits ↦
        let (s, k, found, count, rest) = filling-Next (single p size) sizes refl in
        (
          s,
          k,
          first-step size sizes ∙ rw (fits, if◌then◌else◌) found,
          omega (arith, count),
          rw (fits, if◌then◌else◌) rest,
        )
  ]

-- Planning wave by wave gives the plan of all waves: where objects are left, the next wave
-- takes at least one, and the whole plan is this wave followed by the plan of the objects after
-- those it takes.
pub next_dynamic_wave_plan-unrolls :
    (p : Plan) (size : ℕ) (sizes : List ℕ)
    → (s : Slice) × (next_dynamic_wave_plan p (size ∷ sizes) ≡ some s)
      × (1 ≤ s.object_count)
      × (dynamic_wave_plan p (size ∷ sizes)
          ≡ s ∷ dynamic_wave_plan p (drop s.object_count (size ∷ sizes)))
unfolding next_dynamic_wave_plan dynamic_wave_plan
next_dynamic_wave_plan-unrolls p size sizes =
    let (s, k, found, count, rest) = first-Next p size sizes in
    (
      s,
      found,
      omega (arith, count),
      rest ∙ ap (λ n. s ∷ pack_all p nothing (drop n (size ∷ sizes))) (sym count),
    )
