-- ===== src/Retry.antt =====
-- apps/api/src/services/retry-policy.service.ts: the policy and the functions the executor calls.
-- Settings has the stored value, its normalisation and the service; Stored and Backoff are proofs.
-- The jitter ratio and the random draw are in millionths, so 0.3 is 300000.
pub mod Settings
pub mod Backoff
pub mod Stored
use freellm_gateway.Base.{
  ℕ, ◌+◌, ◌-◌, ◌*◌, ◌/◌, ◌^◌, min, max, String, Bool, true, false, not, ◌&&◌, ◌||◌, Option, none,
  some, List, [], ◌∷◌, if◌then◌else◌, ltb, contains, length, eq_nat, eq_string,
}

pub record RetryPolicy : Type 0 where
  pub max_attempts : ℕ
  pub initial_backoff_ms : ℕ
  pub max_backoff_ms : ℕ
  pub jitter_ratio : ℕ
  pub retry_on_status_codes : List ℕ
  pub retry_on_error_kinds : List String

abbrev pub max_attempts_limit : ℕ
max_attempts_limit = 10

abbrev pub max_backoff_limit : ℕ
max_backoff_limit = 60000

abbrev pub million : ℕ
million = 1000000

abbrev pub default_retry_policy : RetryPolicy
default_retry_policy = record {
  max_attempts = 4;
  initial_backoff_ms = 200;
  max_backoff_ms = 5000;
  jitter_ratio = 300000;
  retry_on_status_codes = [];
  retry_on_error_kinds = [];
}

unfoldable pub compute_base_backoff : ℕ → RetryPolicy → ℕ
compute_base_backoff attempt policy =
    if ltb attempt 1
    then 0
    else min (policy.initial_backoff_ms * 2 ^ (attempt - 1)) policy.max_backoff_ms

-- `Math.max(0, Math.round(up / unit - down / unit))`: a negative value rounds to at most 0.
abbrev pub round_to_zero : ℕ → ℕ → ℕ → ℕ
round_to_zero up down unit = (up - down + unit / 2) / unit

-- `random` is what `Math.random()` draws, below a million millionths.
unfoldable pub compute_backoff : ℕ → RetryPolicy → ℕ → ℕ
compute_backoff attempt policy random =
    let base = compute_base_backoff attempt policy in
    let span = base * policy.jitter_ratio in
    round_to_zero (base * million * million + span * (2 * random)) (span * million)
      (million * million)

-- `p && arg != null && list.includes(arg)`
abbrev pub listed {ℓ} : {A : Type ℓ} → (A → Bool) → Option A → Bool
listed test none = false
listed test (some a) = test a

unfoldable pub should_retry : RetryPolicy → Option ℕ → Option String → Bool → Bool
should_retry policy status kind default_retriable =
    let has_status_filter = ltb 0 (length policy.retry_on_status_codes) in
    let has_kind_filter = ltb 0 (length policy.retry_on_error_kinds) in
    if not has_status_filter && not has_kind_filter
    then default_retriable
    else (has_status_filter && listed (contains policy.retry_on_status_codes) status)
      || (has_kind_filter && listed (contains policy.retry_on_error_kinds) kind)
