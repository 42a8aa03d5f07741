-- ===== src/Simulator/Restores/Windows.antt =====
-- The windows that accepted restores open (`restore_object` of app/simulation_engine.py).
use copy_s3_to_oci.Base.{
  ℕ, ◌+◌, ◌*◌, ◌≤◌, ◌≡◌, refl, sym, ap, subst, ◌∙◌, Bool, true, false, not, ◌&&◌, ◌||◌, Option,
  none, some, List, [], ◌∷◌, ltb, leb, arith, &&-right, if◌then◌else◌,
}
use copy_s3_to_oci.Simulator.Restores.{
  RestoreState, VirtualObject, Reply, Fault, is_archival_storage, since, restore_is_available,
  is_expired, head_object, read_range, day, cleared, requested_until, extra, restore_unless,
  restore_object,
}

-- An accepted restore.
pub record Window : Type 0 where
  pub asked : ℕ
  pub opens : ℕ
  pub closes : ℕ

pub data Request : Type 0 where
  restore : Fault → Option ℕ → ℕ → Request
  head : Request
  read : Bool → Request

abbrev pub window : ℕ → ℕ → ℕ → Window
window now delay retention = record {
  asked = now;
  opens = now + delay;
  closes = now + delay + retention * day;
}

-- The windows, the last one first.
abbrev pub opened : ℕ → Fault → Option ℕ → ℕ → Reply → List Window → List Window
opened now fault (some delay) retention Reply.requested windows =
    window now (delay + extra fault) retention ∷ windows
opened now fault delay retention reply windows = windows

abbrev pub answer : Request → ℕ → VirtualObject × List Window → VirtualObject × List Window
unfolding restore_object head_object read_range
answer (Request.restore fault delay retention) now (item, windows) =
    let (reply, item') = restore_object fault delay retention now item in
    (item', opened now fault delay retention reply windows)
answer Request.head now (item, windows) = ((head_object now item).1, windows)
answer (Request.read audit) now (item, windows) = ((read_range audit now item).1, windows)

-- Requests, each some seconds after the one before.
unfoldable pub answers :
    List (ℕ × Request) → ℕ × VirtualObject × List Window → ℕ × VirtualObject × List Window
unfolding answer
answers [] at = at
answers ((elapsed, r) ∷ rest) (now, item, windows) =
    let (item', windows') = answer r (now + elapsed) (item, windows) in
    answers rest (now + elapsed, item', windows')

abbrev pub is_open : List Window → ℕ → Bool
is_open [] now = false
is_open (w ∷ windows) now = leb w.opens now && ltb now w.closes

-- Each restore was asked for when the window before was over.
abbrev pub AreApart : List Window → Type 0
AreApart [] = Unit
AreApart (w ∷ []) = Unit
AreApart (w ∷ v ∷ windows) = (v.closes ≤ w.asked) × AreApart (v ∷ windows)

abbrev IsOver : ℕ → List Window → Type 0
IsOver now [] = Unit
IsOver now (w ∷ windows) = w.closes ≤ now

-- The dates of the object are those of the last window, or there are none and it is over.
abbrev HasDates : ℕ → Option ℕ → Option ℕ → Option ℕ → List Window → Type 0
HasDates now none opens closes windows = (opens ≡ none) × (closes ≡ none) × IsOver now windows
HasDates now (some asked) opens closes [] = ⊥
HasDates now (some asked) opens closes (w ∷ windows) =
    (opens ≡ some w.opens) × (closes ≡ some w.closes)

record IsTracked (now : ℕ) (item : VirtualObject) (windows : List Window) : Type 0 where
  archival : is_archival_storage item.storage_class ≡ true
  apart : AreApart windows
  dates :
      HasDates now item.restore_requested_at item.restore_available_at item.restore_expires_at
        windows

later_IsOver :
    (now later : ℕ) (windows : List Window)
    → now ≤ later
    → IsOver now windows
    → IsOver later windows
later_IsOver now later [] le h = tt
later_IsOver now later (w ∷ windows) le h = omega arith

later_HasDates :
    (now later : ℕ) (asked opens closes : Option ℕ) (windows : List Window)
    → now ≤ later
    → HasDates now asked opens closes windows
    → HasDates later asked opens closes windows
later_HasDates now later none opens closes windows le (a, b, over) =
    (a, b, later_IsOver now later windows le over)
later_HasDates now later (some asked) opens closes [] le h = absurd h
later_HasDates now later (some asked) opens closes (w ∷ windows) le h = h

open_now :
    (now : ℕ) (asked opens closes : Option ℕ) (windows : List Window)
    → HasDates now asked opens closes windows
    → (since opens now && not (since closes now)) ≡ is_open windows now
open_now now none opens closes [] (a, b, over) = ap (λ o. since o now && not (since closes now)) a
open_now now none opens closes (w ∷ windows) (a, b, over) =
    let shut : (leb w.opens now && ltb now w.closes) ≡ false = ground arith in
    ap (λ o. since o now && not (since closes now)) a ∙ sym shut
open_now now (some asked) opens closes [] h = absurd h
open_now now (some asked) opens closes (w ∷ windows) (a, b) =
    let same : (leb w.opens now && not (leb w.closes now)) ≡ (leb w.opens now && ltb now w.closes) =
      ground arith in
    ap (λ o. since o now && not (since closes now)) a
    ∙ ap (λ o. leb w.opens now && not (since o now)) b
    ∙ same

restore_is_available-is_open :
    (now : ℕ) (item : VirtualObject) (windows : List Window)
    → IsTracked now item windows
    → restore_is_available item now ≡ is_open windows now
restore_is_available-is_open now item windows h =
    ap
      (λ b.
        not b || (since item.restore_available_at now && not (since item.restore_expires_at now)))
      h.archival
    ∙ open_now now item.restore_requested_at item.restore_available_at item.restore_expires_at
        windows h.dates

later_IsTracked :
    (now later : ℕ) (item : VirtualObject) (windows : List Window)
    → now ≤ later
    → IsTracked now item windows
    → IsTracked later item windows
later_IsTracked now later item windows le h = record {
  archival = h.archival;
  apart = h.apart;
  dates = later_HasDates now later _ _ _ windows le h.dates;
}

-- The state of an object says nothing about its dates.
stated-IsTracked :
    (now : ℕ) (item : VirtualObject) (state : RestoreState) (windows : List Window)
    → IsTracked now item windows
    → IsTracked now (record item { restore_state = state }) windows
stated-IsTracked now item state windows h = record {
  archival = h.archival;
  apart = h.apart;
  dates = h.dates;
}

if_holds {ℓ κ} :
    {A : Type ℓ} (P : A → Type κ) (b : Bool) {x y : A}
    → (b ≡ true → P x)
    → (b ≡ false → P y)
    → P (if b then x else y)
if_holds P true f g = f refl
if_holds P false f g = g refl

expired-IsOver :
    (now : ℕ) (asked opens closes : Option ℕ) (windows : List Window)
    → since closes now ≡ true
    → HasDates now asked opens closes windows
    → IsOver now windows
expired-IsOver now none opens closes windows e (a, b, over) = over
expired-IsOver now (some asked) opens closes [] e h = absurd h
expired-IsOver now (some asked) opens closes (w ∷ windows) e (a, b) =
    let past = sym (ap (λ o. since o now) b) ∙ e in ground arith

cleared-IsTracked :
    (now : ℕ) (item : VirtualObject) (windows : List Window)
    → is_expired item now ≡ true
    → IsTracked now item windows
    → IsTracked now (cleared item) windows
cleared-IsTracked now item windows e h = record {
  archival = h.archival;
  apart = h.apart;
  dates = (
    refl,
    refl,
    expired-IsOver now _ _ _ windows (&&-right (is_archival_storage item.storage_class) _ e)
        h.dates,
  );
}

opened-AreApart :
    (now delay retention : ℕ) (windows : List Window)
    → AreApart windows
    → IsOver now windows
    → AreApart (window now delay retention ∷ windows)
opened-AreApart now delay retention [] apart over = tt
opened-AreApart now delay retention (w ∷ windows) apart over = (over, apart)

-- What a request that meets no window leaves.
abbrev IsAnswered : ℕ → Fault → Option ℕ → ℕ → List Window → Reply × VirtualObject → Type 0
IsAnswered now fault delay retention windows (reply, item) =
    IsTracked now item (opened now fault delay retention reply windows)

requested-IsTracked :
    (now delay retention : ℕ) (item : VirtualObject) (windows : List Window)
    → item.restore_requested_at ≡ none
    → IsTracked now item windows
    → IsTracked now
        (requested_until now (now + delay) retention item)
        (window now delay retention ∷ windows)
requested-IsTracked now delay retention item windows free h =
    let dates =
      subst (λ asked. HasDates now asked item.restore_available_at item.restore_expires_at windows)
        free h.dates in
    record {
      archival = h.archival;
      apart = opened-AreApart now delay retention windows h.apart dates.2;
      dates = (refl, refl);
    }

restore_unless-IsAnswered :
    (asked : Option ℕ) (fault : Fault) (delay : Option ℕ) (retention now : ℕ)
    (before item : VirtualObject) (windows : List Window)
    → item.restore_requested_at ≡ asked
    → IsTracked now before windows
    → IsTracked now item windows
    → IsAnswered now fault delay retention windows
        (restore_unless asked fault delay retention now before item)
restore_unless-IsAnswered (some at) fault none retention now before item windows e b h = b
restore_unless-IsAnswered (some at) fault (some d) retention now before item windows e b h = b
restore_unless-IsAnswered none Fault.refusal none retention now before item windows e b h = h
restore_unless-IsAnswered none Fault.refusal (some d) retention now before item windows e b h = h
restore_unless-IsAnswered none Fault.no_fault none retention now before item windows e b h = b
restore_unless-IsAnswered none (Fault.delay_seconds n) none retention now before item windows e b
      h =
    b
restore_unless-IsAnswered none Fault.no_fault (some d) retention now before item windows e b h =
    requested-IsTracked now (d + 0) retention item windows e h
restore_unless-IsAnswered none (Fault.delay_seconds n) (some d) retention now before item windows e
      b h =
    requested-IsTracked now (d + n) retention item windows e h

answer-IsTracked :
    (r : Request) (now : ℕ) (item : VirtualObject) (windows : List Window)
    → IsTracked now item windows
    → let (item', windows') = answer r now (item, windows) in IsTracked now item' windows'
unfolding answer restore_object head_object read_range
answer-IsTracked (Request.restore fault delay retention) now item windows h =
    if_holds
      (λ usable.
        IsAnswered now fault delay retention windows
          (restore_unless usable.restore_requested_at fault delay retention now item usable))
      (is_expired item now) {x = cleared item} {y = item}
      (λ e.
        restore_unless-IsAnswered _ fault delay retention now item (cleared item) windows refl h
          (cleared-IsTracked now item windows e h))
      (λ _. restore_unless-IsAnswered _ fault delay retention now item item windows refl h h)
answer-IsTracked Request.head now item windows h =
    if_holds (λ x. IsTracked now x windows) (is_expired item now)
      (λ _. stated-IsTracked now item RestoreState.expired windows h)
      (λ _.
        if_holds (λ x. IsTracked now x windows) (restore_is_available item now)
          (λ _. stated-IsTracked now item RestoreState.available windows h) (λ _. h))
answer-IsTracked (Request.read audit) now item windows h =
    if_holds (λ x. IsTracked now x windows) (is_expired item now)
      (λ _. stated-IsTracked now item RestoreState.expired windows h) (λ _. h)

answers-IsTracked :
    (requests : List (ℕ × Request)) (now : ℕ) (item : VirtualObject) (windows : List Window)
    → IsTracked now item windows
    → let (later, item', windows') = answers requests (now, item, windows) in
      IsTracked later item' windows'
unfolding answers
answers-IsTracked [] now item windows h = h
answers-IsTracked ((elapsed, r) ∷ rest) now item windows h =
    let later = later_IsTracked now (now + elapsed) item windows (omega arith) h in
    answers-IsTracked rest (now + elapsed) _ _
      (answer-IsTracked r (now + elapsed) item windows later)

-- An archived object is readable exactly in the windows that its accepted restores open. From
-- an archived object with no restore, after whatever restores (delayed, refused or
-- misconfigured ones included), heads and reads, each some time after the one before: at that
-- time and any later one a read that is no audit is granted exactly if the last accepted
-- restore is available and has not expired; and each restore was accepted only when the window
-- before it was over.
pub answers-read_range :
    (requests : List (ℕ × Request)) (start elapsed : ℕ) (item : VirtualObject)
    → is_archival_storage item.storage_class ≡ true
    → item.restore_requested_at ≡ none
    → item.restore_available_at ≡ none
    → item.restore_expires_at ≡ none
    → let (now, item', windows) = answers requests (start, item, []) in
      ((read_range false (now + elapsed) item').0 ≡ is_open windows (now + elapsed))
      × AreApart windows
unfolding read_range
answers-read_range requests start elapsed item archival asked opens closes =
    let (now, item', windows) = answers requests (start, item, []) in
    let fresh : IsTracked start item [] = record {
      archival = archival;
      apart = tt;
      dates =
          subst (λ o. HasDates start o item.restore_available_at item.restore_expires_at [])
            (sym asked) (opens, closes, tt);
    } in
    let h = answers-IsTracked requests start item [] fresh in
    let later = later_IsTracked now (now + elapsed) item' windows (omega arith) h in
    (restore_is_available-is_open (now + elapsed) item' windows later, h.apart)
