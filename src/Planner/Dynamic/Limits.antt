-- ===== src/Planner/Dynamic/Limits.antt =====
-- The limits of a planned wave.
use native.Mathlib.Nat.{div-lt_iff_lt-mul}
use copy_s3_to_oci.Base.{
  ℕ, ◌+◌, ◌-◌, ◌*◌, ◌/◌, ◌≤◌, ◌<◌, ◌≡◌, refl, sym, subst, max, true, false, List, [], ◌∷◌, arith,
  ◌==◌, All, All-append, if◌then◌else◌, Bool-cases, inl, inr, ◌⊎◌,
}
use copy_s3_to_oci.Planner.Dynamic.{
  Plan, Filling, Slice, nothing, wall, one_second, too_long, ceil_seconds, with_object, single,
  exceeds, oversized, slice, flush, start, pack, pack_all, dynamic_wave_plan,
}

Within : Plan → Filling → Type 0
Within p f =
    (f.bytes ≤ p.max_bytes)
    × (f.count ≤ max 1 p.max_objects)
    × (wall p f.bytes f.predicted ≤ p.target_seconds * one_second p)

-- What the plan promises of a wave.
abbrev pub IsFit : Plan → Slice → Type 0
IsFit p s =
    ((s.exclusive ≡ true) × (s.object_count ≡ 1))
    ⊎ ((s.exclusive ≡ false)
        × (s.bytes ≤ p.max_bytes)
        × (s.object_count ≤ max 1 p.max_objects)
        × (s.predicted_transfer_seconds ≤ p.target_seconds))

ceil-le : (time target u : ℕ) → 0 < u → time ≤ target * u → (time + u - 1) / u ≤ target
ceil-le time target u pos h =
    let spread : (target + 1) * u ≡ target * u + u = omega arith in
    let below : (time + u - 1) / u < target + 1 =
      (div-lt_iff_lt-mul pos).1 (omega (arith, spread, h, pos)) in
    omega (arith, below)

module _ (p : Plan) (unit : 0 < one_second p) where
  ceil_seconds-le :
      (time : ℕ) → time ≤ p.target_seconds * one_second p → ceil_seconds p time ≤ p.target_seconds
  ceil_seconds-le time h = ceil-le time p.target_seconds (one_second p) unit h

  slice-IsFit : (f : Filling) → Within p f → IsFit p (slice p false f)
  unfolding Within slice
  slice-IsFit f (bytes, count, time) =
      inr (refl, bytes, count, ceil_seconds-le (wall p f.bytes f.predicted) time)

  fits-Within : (g : Filling) → exceeds p g ≡ false → Within p g
  unfolding Within exceeds too_long
  fits-Within g h = (ground arith, ground arith, ground arith)

  single-Within : (size : ℕ) → oversized p (single p size) ≡ false → Within p (single p size)
  unfolding Within oversized too_long
  single-Within size h = (ground arith, omega arith, ground arith)

  Sound : Filling → Type 0
  Sound f = (f ≡ nothing) ⊎ Within p f

  start-Sound : (size : ℕ) → All (IsFit p) (start p size).0 × Sound (start p size).1
  unfolding start Sound
  start-Sound size = elim (Bool-cases (oversized p (single p size))) [
    | inl big ↦ rw (big, if◌then◌else◌) ((inl (refl, refl), tt), inl refl)
    | inr fits ↦ rw (fits, if◌then◌else◌) (tt, inr (single-Within size fits))
  ]

  pack-Sound :
      (f : Filling) (size : ℕ) → Sound f → All (IsFit p) (pack p f size).0 × Sound (pack p f size).1
  unfolding pack Sound
  pack-Sound f size (inl e) =
      subst (λ g. All (IsFit p) (pack p g size).0 × Sound (pack p g size).1) (sym e)
        (start-Sound size)
  pack-Sound f size (inr w) =
      let first = start-Sound size in
      elim (Bool-cases (f.count == 0)) [
        | inl z ↦ rw (z, if◌then◌else◌) first
        | inr n ↦ elim (Bool-cases (exceeds p (with_object p f size))) [
          | inl full ↦ rw (n, full, if◌then◌else◌) ((slice-IsFit f w, first.0), first.1)
          | inr room ↦ rw (n, room, if◌then◌else◌) (tt, inr (fits-Within _ room))
        ]
      ]

  flush-fits : (f : Filling) → Sound f → All (IsFit p) (flush p false f)
  unfolding flush Sound
  flush-fits f (inl e) = subst (λ g. All (IsFit p) (flush p false g)) (sym e) tt
  flush-fits f (inr w) = elim (Bool-cases (f.count == 0)) [
    | inl z ↦ rw (z, if◌then◌else◌) tt
    | inr n ↦ rw (n, if◌then◌else◌) (slice-IsFit f w, tt)
  ]

  pack_all-fits : (f : Filling) (sizes : List ℕ) → Sound f → All (IsFit p) (pack_all p f sizes)
  unfolding pack_all
  pack_all-fits f [] h = flush-fits f h
  pack_all-fits f (size ∷ sizes) h =
      let (done, next) = pack-Sound f size h in
      All-append (IsFit p) _ _ done (pack_all-fits (pack p f size).1 sizes next)

-- Each wave of the dynamic plan is either one object marked as exclusive, or within the byte
-- limit, the object limit (at least one) and the target duration, where the rates are positive.
pub dynamic_wave_plan-fits :
    (p : Plan) (sizes : List ℕ) → 0 < one_second p → All (IsFit p) (dynamic_wave_plan p sizes)
unfolding dynamic_wave_plan Sound
dynamic_wave_plan-fits p sizes unit = pack_all-fits p unit nothing sizes (inl refl)
