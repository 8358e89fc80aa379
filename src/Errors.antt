-- ===== src/Errors.antt =====
-- packages/shared/src/errors.ts: the error kinds, their HTTP statuses and the OpenAI error types.
pub mod Names
use freellm_gateway.Base.{ℕ, String, Bool, true, false, Option, none, some}

pub data ErrorKind : Type 0 where
  bad_request unauthorized forbidden not_found unsupported_capability context_overflow : ErrorKind
  rate_limited provider_unavailable timeout network_error invalid_response : ErrorKind
  content_filter balance_insufficient auth_failure : ErrorKind
  no_route_available all_attempts_failed cooldown_active unknown : ErrorKind

-- The literal that stands for the kind in the source.
unfoldable pub kind_name : ErrorKind → String
kind_name bad_request = "bad_request"
kind_name unauthorized = "unauthorized"
kind_name forbidden = "forbidden"
kind_name not_found = "not_found"
kind_name unsupported_capability = "unsupported_capability"
kind_name context_overflow = "context_overflow"
kind_name rate_limited = "rate_limited"
kind_name provider_unavailable = "provider_unavailable"
kind_name timeout = "timeout"
kind_name network_error = "network_error"
kind_name invalid_response = "invalid_response"
kind_name content_filter = "content_filter"
kind_name balance_insufficient = "balance_insufficient"
kind_name auth_failure = "auth_failure"
kind_name no_route_available = "no_route_available"
kind_name all_attempts_failed = "all_attempts_failed"
kind_name cooldown_active = "cooldown_active"
kind_name unknown = "unknown"

unfoldable pub http_status_by_kind : ErrorKind → ℕ
http_status_by_kind bad_request = 400
http_status_by_kind unauthorized = 401
http_status_by_kind forbidden = 403
http_status_by_kind not_found = 404
http_status_by_kind unsupported_capability = 422
http_status_by_kind context_overflow = 413
http_status_by_kind rate_limited = 429
http_status_by_kind provider_unavailable = 503
http_status_by_kind timeout = 504
http_status_by_kind network_error = 502
http_status_by_kind invalid_response = 502
http_status_by_kind content_filter = 451
http_status_by_kind balance_insufficient = 402
http_status_by_kind auth_failure = 401
http_status_by_kind no_route_available = 503
http_status_by_kind all_attempts_failed = 502
http_status_by_kind cooldown_active = 503
http_status_by_kind unknown = 500

unfoldable pub open_ai_type_for : ErrorKind → String
open_ai_type_for bad_request = "invalid_request_error"
open_ai_type_for unsupported_capability = "invalid_request_error"
open_ai_type_for context_overflow = "invalid_request_error"
open_ai_type_for unauthorized = "authentication_error"
open_ai_type_for forbidden = "authentication_error"
open_ai_type_for auth_failure = "authentication_error"
open_ai_type_for rate_limited = "rate_limit_error"
open_ai_type_for balance_insufficient = "billing_error"
open_ai_type_for content_filter = "content_policy_violation"
open_ai_type_for _ = "api_error"

-- The part of `FreeLLMErrorContext` that the modelled code fills.
pub record ErrorContext : Type 0 where
  pub request_id : Option String
  pub attempts : Option ℕ

pub record FreeLlmError : Type 0 where
  pub kind : ErrorKind
  pub message : String
  pub http_status : ℕ
  pub context : ErrorContext

-- The constructor.
unfoldable pub new_error : ErrorKind → String → ErrorContext → FreeLlmError
new_error kind message context = record {
  kind = kind;
  message = message;
  http_status = http_status_by_kind kind;
  context = context;
}

-- packages/routing-core/src/error-classifier.ts
unfoldable pub is_retriable_kind : ErrorKind → Bool
is_retriable_kind rate_limited = true
is_retriable_kind timeout = true
is_retriable_kind network_error = true
is_retriable_kind provider_unavailable = true
is_retriable_kind invalid_response = true
is_retriable_kind _ = false
