-- ===== src/Witnesses/Policies.antt =====
-- Retry policies, classifications and statuses at concrete values.
use freellm_gateway.Base.{none, some, ◌≡◌, refl, inl}
use freellm_gateway.Classify.{ClassifierInput}
use freellm_gateway.Retry.{RetryPolicy, default_retry_policy}
use freellm_gateway.Retry.Settings.{
  no_row, stored, Patch, num, absent, missing, get_policy, set_policy, validate_patch,
  merge_with_defaults, spread, as_patch,
}
use freellm_gateway.Retry.Stored.{get_policy-set_policy}

abbrev three : Patch
three = record {
  max_attempts = num 3000000;
  initial_backoff_ms = absent;
  max_backoff_ms = absent;
  jitter_ratio = absent;
  retry_on_status_codes = missing;
  retry_on_error_kinds = missing;
}

abbrev merged : RetryPolicy
merged = merge_with_defaults (spread (as_patch default_retry_policy) three)

accepted : set_policy three no_row ≡ inl (stored (as_patch merged), merged)
unfolding set_policy get_policy validate_patch
accepted = refl

get_policy-set_policy_example : get_policy (stored (as_patch merged)) ≡ merged
get_policy-set_policy_example =
    get_policy-set_policy three no_row (stored (as_patch merged)) merged accepted

abbrev throttled : ClassifierInput
throttled = record {
  status = some 429;
  message = some "slow down";
  body_snippet = none;
  cause_name = none;
  errno = none;
}
