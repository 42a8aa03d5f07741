-- ===== src/Worker/Errors.antt =====
-- `classify_task_error` and `restored_object_is_unavailable` of app/real_worker.py. An AWS error code is
-- a number: 1 to 10 are TRANSIENT_AWS_CODES, 11 to 23 are PERMANENT_AWS_CODES, 24 and 25 are
-- InvalidObjectState and RestoreNotAvailable.
use copy_s3_to_oci.Base.{
  ℕ, Bool, false, ◌&&◌, ◌||◌, Option, none, some, ◌==◌, ltb, leb, if◌then◌else◌,
}

-- What a task may raise: `client` is an SDK error with a response; `network` the botocore errors for a
-- lost or late connection; `simulator` an error of the simulator's port, with its HTTP status if it has
-- one; `recovery` SimulatedNetworkRecoveryPending; and `runtime` any other.
pub data Error : Type 0 where
  client : Option ℕ → Option ℕ → Error
  network : Error
  simulator : Option ℕ → Error
  recovery : ℕ → Error
  runtime : Error

pub data Disposition : Type 0 where
  retry failed : Disposition

abbrev pub is_transient_code : Option ℕ → Bool
is_transient_code none = false
is_transient_code (some code) = leb 1 code && leb code 10

abbrev pub is_permanent_code : Option ℕ → Bool
is_permanent_code none = false
is_permanent_code (some code) = leb 11 code && leb code 23

-- `status in {429, 500, 502, 503, 504}`.
abbrev pub is_transient_status : Option ℕ → Bool
is_transient_status none = false
is_transient_status (some status) =
    status == 429 || status == 500 || status == 502 || status == 503 || status == 504

abbrev pub is_refusal : Option ℕ → Bool
is_refusal none = false
is_refusal (some status) = leb 400 status && ltb status 500

-- `"HTTP 4" in str(error)`.
abbrev pub is_refused_request : Option ℕ → Bool
is_refused_request none = false
is_refused_request (some status) = leb 400 status && ltb status 500

unfoldable pub classify_task_error : Error → Disposition
classify_task_error (Error.recovery seconds) = Disposition.retry
classify_task_error (Error.simulator status) =
    if is_refused_request status then Disposition.failed else Disposition.retry
classify_task_error (Error.client status code) =
    if is_transient_code code || is_transient_status status
    then Disposition.retry
    else if is_permanent_code code || is_refusal status
    then Disposition.failed
    else Disposition.failed
classify_task_error Error.network = Disposition.retry
classify_task_error Error.runtime = Disposition.failed

unfoldable pub restored_object_is_unavailable : Error → Bool
restored_object_is_unavailable (Error.simulator none) = false
restored_object_is_unavailable (Error.simulator (some status)) = status == 409
restored_object_is_unavailable (Error.client status none) = false
restored_object_is_unavailable (Error.client status (some code)) = code == 24 || code == 25
restored_object_is_unavailable Error.network = false
restored_object_is_unavailable (Error.recovery seconds) = false
restored_object_is_unavailable Error.runtime = false
