-- ===== src/Gcs/Status.antt =====
-- gcs_storage.cc and compactor.cc: `ConvertStatus`, from the codes of the client library.
use sqlite_on_gcs_rapid.Status.{Code}

-- The codes of `google::cloud::StatusCode` that the source names, and any other error.
pub data CloudCode : Type 0 where
  k_cancelled k_invalid_argument k_deadline_exceeded k_not_found k_already_exists : CloudCode
  k_permission_denied k_resource_exhausted k_failed_precondition k_aborted : CloudCode
  k_out_of_range k_unimplemented k_internal k_unavailable k_data_loss : CloudCode
  k_unauthenticated k_other : CloudCode

-- `google::cloud::StatusOr`.
pub data Answered {ℓ} (A : Type ℓ) : Type ℓ where
  fine : A → Answered A
  fault : CloudCode → Answered A

unfoldable pub convert_status : CloudCode → Code
convert_status k_cancelled = Code.cancelled
convert_status k_invalid_argument = Code.invalid_argument
convert_status k_deadline_exceeded = Code.deadline_exceeded
convert_status k_not_found = Code.not_found
convert_status k_already_exists = Code.already_exists
convert_status k_permission_denied = Code.permission_denied
convert_status k_resource_exhausted = Code.resource_exhausted
convert_status k_failed_precondition = Code.failed_precondition
convert_status k_aborted = Code.aborted
convert_status k_out_of_range = Code.out_of_range
convert_status k_unimplemented = Code.unimplemented
convert_status k_internal = Code.internal
convert_status k_unavailable = Code.unavailable
convert_status k_data_loss = Code.data_loss
convert_status k_unauthenticated = Code.unauthenticated
convert_status k_other = Code.unknown
