-- ===== src/Witnesses/Keys.antt =====
-- Virtual keys at a table of one row.
use freellm_gateway.Base.{
  ℕ, ◌+◌, ◌≤◌, String, Bool, true, false, Option, none, some, List, [], ◌∷◌, ◌≡◌, refl, arith,
  if◌then◌else◌, contains, eq_nat, eq_string,
}
use freellm_gateway.Errors.{forbidden}
use freellm_gateway.Keys.{AuthState, KeyPermissions}
use freellm_gateway.Keys.Secret.{bearer, is_virtual_key, is_resolvable}
use freellm_gateway.Keys.Service.{
  Codec, KeyRow, Columns, empty_columns, revoke, revoked, resolve_by_secret_with_tenancy,
}
use freellm_gateway.Keys.Hook.{refused, authenticate, on_request, Request}
use freellm_gateway.Keys.Refusals.{Settled, on_request-Settled}
use freellm_gateway.Keys.Quota.{used}
use freellm_gateway.Keys.Day.{Event, request, tokens, admissions, admissions_le}
use freellm_gateway.Keys.Lifecycle.{revoke-authenticate}
use freellm_gateway.Classify.Regex.{units}

-- Lists stand for themselves, and a secret of the live environment has its own hash.
abbrev codec : Codec
codec = record {
  Json = List String;
  stringify = λ xs. xs;
  parse = λ xs. some xs;
  hash = λ xs. if contains xs b'v' then "live" else "test";
  shown = λ xs. "fllm";
}

abbrev live_secret : List ℕ
live_secret = units "fllm_live_0123456789abcdef0123456789abcdef0123456789abcdef0123456789abcdef"

abbrev test_secret : List ℕ
test_secret = units "fllm_test_0123456789abcdef0123456789abcdef0123456789abcdef0123456789abcdef"

abbrev two_a_day : Columns codec
two_a_day = record (empty_columns codec) { max_requests_per_day = some 2 }

abbrev row : KeyRow codec
row = record {
  id = "vk_1";
  hash = "live";
  prefix = "fllm";
  label = "ci";
  environment = "live";
  enabled = true;
  is_demo = false;
  expires_at = none;
  revoked_at = none;
  last_used_at = none;
  last_used_ip = none;
  total_requests = 0;
  total_tokens = 0;
  project = none;
  columns = two_a_day;
}

abbrev chat : Request
chat = record {
  url = "/v1/chat/completions";
  authorization =
      some "Bearer fllm_live_0123456789abcdef0123456789abcdef0123456789abcdef0123456789abcdef";
}

abbrev fresh : AuthState
fresh = record { rpm_buckets = []; day_buckets = []; kv = [] }

on_request-Settled_example :
    Settled codec
      (row ∷ [])
      5000
      "2026-01-01"
      chat
      fresh
      (on_request codec (row ∷ []) 5000 "2026-01-01" chat fresh)
on_request-Settled_example = on_request-Settled codec (row ∷ []) 5000 "2026-01-01" chat fresh

abbrev busy : List (Event codec)
busy =
    request (row ∷ []) 5000 chat
    ∷ tokens "vk_1" 40
    ∷ request (row ∷ []) 5001 chat
    ∷ request (row ∷ []) 5002 chat
    ∷ []

unused : used "2026-01-01" "vk_1" fresh ≡ 0
unfolding used freellm_gateway.Base.Dict.lookup
unused = refl

admissions_le_example :
    admissions codec "2026-01-01" "vk_1" busy fresh + used "2026-01-01" "vk_1" fresh ≤ 2
admissions_le_example =
    admissions_le codec "2026-01-01" "vk_1" 1 busy fresh
      (((λ e. refl), tt), (tt, (((λ e. refl), tt), (((λ e. refl), tt), tt))))
      (omega (arith, unused))

carried : bearer chat.authorization ≡ some live_secret
unfolding bearer freellm_gateway.Keys.Secret.trim freellm_gateway.Keys.Secret.trim_start
    freellm_gateway.Keys.Secret.trim_end units
carried = refl

formed : is_virtual_key live_secret ≡ true
unfolding is_virtual_key freellm_gateway.Keys.Secret.secret_body units
formed = refl

found : resolve_by_secret_with_tenancy codec (row ∷ []) live_secret ≡ some row
unfolding resolve_by_secret_with_tenancy freellm_gateway.Keys.Secret.is_resolvable
    freellm_gateway.Keys.Secret.secret_body units
found = refl

revoke-authenticate_example :
    authenticate codec (revoked codec 6000 row ∷ []) 7000 chat fresh
    ≡ (fresh, refused forbidden "API 密钥已禁用")
unfolding revoke
revoke-authenticate_example =
    revoke-authenticate codec (row ∷ []) (revoked codec 6000 row ∷ []) "vk_1" 6000 7000 live_secret
      row chat fresh carried formed found refl refl

abbrev only_free : KeyPermissions
only_free = record {
  allowed_models = some ("free" ∷ []);
  denied_models = none;
  allowed_providers = none;
  max_requests_per_minute = some none;
  max_requests_per_day = none;
  max_tokens_per_day = none;
  max_embeddings_per_day = none;
  max_cost_usd_per_day = none;
  allow_paid_models = false;
  allow_streaming = true;
  reasoning_effort = none;
  allow_reasoning = none;
}
