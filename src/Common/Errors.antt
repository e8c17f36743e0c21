-- ===== src/Common/Errors.antt =====
-- apps/common/errors.py and the classes of policies/exceptions.py and payments/exceptions.py:
-- the canonical codes and what each failure of the program carries.
use democrance_insurance_api.Prelude.{ℕ, ℤ, Option, none, some, String, List, ◌==◌, if◌then◌else◌}
use democrance_insurance_api.Customers.{DobError}
use democrance_insurance_api.Policies.StateMachine.{State}
use democrance_insurance_api.Products.Rating.{RatingError}

-- `ErrorCode`
pub data ErrorCode : Type 0 where
  validation authentication_failed permission_denied not_found method_not_allowed : ErrorCode
  invalid_state_transition duplicate_request throttled server_error : ErrorCode

abbrev pub code_value : ErrorCode → String
code_value ErrorCode.validation = "validation_error"
code_value ErrorCode.authentication_failed = "authentication_failed"
code_value ErrorCode.permission_denied = "permission_denied"
code_value ErrorCode.not_found = "not_found"
code_value ErrorCode.method_not_allowed = "method_not_allowed"
code_value ErrorCode.invalid_state_transition = "invalid_state_transition"
code_value ErrorCode.duplicate_request = "duplicate_request"
code_value ErrorCode.throttled = "throttled"
code_value ErrorCode.server_error = "server_error"

-- `STATUS_TO_CODE.get(status_code)`
unfoldable pub status_to_code : ℕ → Option ErrorCode
status_to_code status =
    if status == 400
    then some ErrorCode.validation
    else if status == 401
    then some ErrorCode.authentication_failed
    else if status == 403
    then some ErrorCode.permission_denied
    else if status == 404
    then some ErrorCode.not_found
    else if status == 405
    then some ErrorCode.method_not_allowed
    else if status == 409
    then some ErrorCode.invalid_state_transition
    else if status == 429
    then some ErrorCode.throttled
    else if status == 500
    then some ErrorCode.server_error
    else none

-- What a DRF ValidationError of the program says.
pub data Invalid : Type 0 where
  expected_object ambiguous_payload unrecognised_payload unsupported_method : Invalid
  refresh_missing refresh_invalid : Invalid
  bad_dob : DobError → Invalid
  unknown_fields : List String → Invalid
  bad_fields : List String → Invalid

-- What a DRF NotFound of the program names.
pub data Missing : Type 0 where
  quote_id customer_id policy_id : ℤ → Missing
  product_type : String → Missing

-- Everything that a handler can raise. The last three are no API exceptions: a row that is not
-- there, a constraint of the database, a decimal with more digits than its column.
pub data Error : Type 0 where
  rating : RatingError → Error
  invalid_transition : Option State → State → Error
  quote_expired payment_not_allowed duplicate : Error
  invalid : Invalid → Error
  missing : Missing → Error
  -- DRF's NotAuthenticated and PermissionDenied.
  not_authenticated permission_denied : Error
  does_not_exist integrity_error decimal_overflow : Error

-- `status_code` of the exception's class, `none` for what is no APIException.
unfoldable pub status_code : Error → Option ℕ
status_code (rating e) = some 400
status_code (invalid_transition from to) = some 409
status_code quote_expired = some 409
status_code payment_not_allowed = some 409
status_code duplicate = some 409
status_code (invalid e) = some 400
status_code (missing m) = some 404
status_code not_authenticated = some 401
status_code Error.permission_denied = some 403
status_code does_not_exist = none
status_code integrity_error = none
status_code decimal_overflow = none

-- `getattr(exc, "error_code", None)`: the DomainError classes declare one. QuoteExpired inherits
-- that of InvalidStateTransition.
unfoldable pub error_code : Error → Option ErrorCode
error_code (rating e) = some ErrorCode.validation
error_code (invalid_transition from to) = some ErrorCode.invalid_state_transition
error_code quote_expired = some ErrorCode.invalid_state_transition
error_code payment_not_allowed = some ErrorCode.invalid_state_transition
error_code duplicate = some ErrorCode.duplicate_request
error_code _ = none

-- `_code_for`; the last resort is the text "error".
abbrev pub fallback_code : Option ErrorCode → String
fallback_code none = "error"
fallback_code (some code) = code_value code

unfoldable pub code_for : Option ErrorCode → ℕ → String
code_for (some code) status = code_value code
code_for none status = fallback_code (status_to_code status)
