-- ===== src/Error.antt =====
-- src/error.rs: the error of every handler and the HTTP status that it becomes. The texts of the
-- messages are left out; what the response carries besides them is kept.
use ovp_data_api.Base.{ℕ, Text, Bool, true}
use ovp_data_api.Ids.{ETag, PseudoIdError}
use ovp_data_api.State.{UnknownStatus}

pub data AppError : Type 0 where
  not_found bad_request unauthorized forbidden conflict gone payload_too_large : AppError
  precondition_failed : ETag → AppError
  missing_header : Text → AppError
  invalid_pseudo_id : AppError
  illegal_transition : Text → Text → AppError
  database : AppError
  s3 : Bool → AppError
  serde internal : AppError

-- AppError::s3
unfoldable pub s3_error : AppError
s3_error = s3 true

-- the status of `into_response`
unfoldable pub status_code : AppError → ℕ
status_code not_found = 404
status_code bad_request = 400
status_code unauthorized = 401
status_code forbidden = 403
status_code conflict = 409
status_code gone = 410
status_code payload_too_large = 413
status_code (precondition_failed current_etag) = 412
status_code (missing_header h) = 400
status_code invalid_pseudo_id = 400
status_code (illegal_transition from to) = 409
status_code database = 500
status_code (s3 retryable) = 502
status_code serde = 400
status_code internal = 500

-- impl From<PseudoIdError> for AppError
unfoldable pub from_pseudo_id_error : PseudoIdError → AppError
from_pseudo_id_error e = invalid_pseudo_id

-- impl From<UnknownStatus> for AppError
unfoldable pub from_unknown_status : UnknownStatus → AppError
from_unknown_status e = bad_request
