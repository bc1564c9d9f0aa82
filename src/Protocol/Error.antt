-- ===== src/Protocol/Error.antt =====
-- server/src/protocol/error.rs: the error codes of the protocol and the error response.
use rs_matter_server.Prelude.{ℕ, ◌++◌, Result}
use rs_matter_server.Prelude.Text.{Text, text, show}

pub data ErrorCode : Type 0 where
  unknown_error node_commission_failed node_interview_failed node_not_ready : ErrorCode
  node_not_resolving node_not_exists version_mismatch sdk_stack_error : ErrorCode
  invalid_arguments invalid_command update_check_error update_error : ErrorCode
  icd_multi_admin ota_upload_error : ErrorCode

unfoldable pub as_i64 : ErrorCode → ℕ
as_i64 unknown_error = 0
as_i64 node_commission_failed = 1
as_i64 node_interview_failed = 2
as_i64 node_not_ready = 3
as_i64 node_not_resolving = 4
as_i64 node_not_exists = 5
as_i64 version_mismatch = 6
as_i64 sdk_stack_error = 7
as_i64 invalid_arguments = 8
as_i64 invalid_command = 9
as_i64 update_check_error = 10
as_i64 update_error = 11
as_i64 icd_multi_admin = 100
as_i64 ota_upload_error = 101

pub record ApiError : Type 0 where
  pub code : ErrorCode
  pub details : Text

-- `ApiError::new` and its shorthands, one for each code that the handlers raise.
unfoldable pub new : ErrorCode → Text → ApiError
new code details = record { code = code; details = details }

unfoldable pub unknown : Text → ApiError
unfolding new
unknown details = new unknown_error details

unfoldable pub commission_failed : Text → ApiError
unfolding new
commission_failed details = new node_commission_failed details

unfoldable pub interview_failed : Text → ApiError
unfolding new
interview_failed details = new node_interview_failed details

unfoldable pub not_ready : ℕ → ApiError
unfolding new
not_ready node_id = new node_not_ready (text "Node " ++ (show node_id ++ text " is not ready"))

unfoldable pub not_resolving : ℕ → ApiError
unfolding new
not_resolving node_id =
    new node_not_resolving (text "Node " ++ (show node_id ++ text " is not resolving"))

unfoldable pub not_exists : ℕ → ApiError
unfolding new
not_exists node_id = new node_not_exists (text "Node " ++ (show node_id ++ text " does not exist"))

unfoldable pub sdk : Text → ApiError
unfolding new
sdk details = new sdk_stack_error details

unfoldable pub invalid_args : Text → ApiError
unfolding new
invalid_args details = new invalid_arguments details

unfoldable pub unknown_command : Text → ApiError
unfolding new
unknown_command command = new invalid_command (text "Unknown command: " ++ command)

unfoldable pub update_check : Text → ApiError
unfolding new
update_check details = new update_check_error details

unfoldable pub update : Text → ApiError
unfolding new
update details = new update_error details

unfoldable pub ota_upload : Text → ApiError
unfolding new
ota_upload details = new ota_upload_error details

-- `Display`: `[code] details`.
pub display : ApiError → Text
display e = text "[" ++ (show (as_i64 e.code) ++ (text "] " ++ e.details))

-- Every command handler returns this.
abbrev pub Api : Type 0 → Type 0
Api A = Result ApiError A
