-- ===== src/Http.antt =====
-- A request handler of app/main.py: it answers with a reply and the committed database, or raises
-- HTTPException, which commits nothing.
use copy_s3_to_oci.Base.{Bool, true, false, Option, none, some}

pub data HttpError : Type 0 where
  not_found conflict unprocessable : HttpError

pub data Reply {ℓ} (A : Type ℓ) : Type ℓ where
  ok : A → Reply A
  err : HttpError → Reply A

infixl 5 ◌>>=◌ ◌>>◌
abbrev pub ◌>>=◌ {ℓ κ} : {A : Type ℓ} {B : Type κ} → Reply A → (A → Reply B) → Reply B
ok a >>= f = f a
err e >>= f = err e

abbrev pub ◌>>◌ {ℓ} : {B : Type ℓ} → Reply (Unit {0}) → Reply B → Reply B
m >> k = m >>= λ _. k

abbrev pub raise_if : Bool → HttpError → Reply (Unit {0})
raise_if true e = err e
raise_if false e = ok tt

-- `source_or_404`, `wave_or_404`, `task_or_404` of app/main.py.
abbrev pub or_404 {ℓ} : {A : Type ℓ} → Option A → Reply A
or_404 none = err HttpError.not_found
or_404 (some a) = ok a
