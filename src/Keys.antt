-- ===== src/Keys.antt =====
-- Virtual keys: the row of the `virtual_keys` table, its permissions, and the counters of
-- apps/api/src/plugins/virtual-key-auth.ts. Secret has the format of a key, Service the table's
-- operations, Hook the `onRequest` hook; the other children are proofs. Money is in millionths of a
-- dollar; a limit that is missing or 0 enforces nothing.
pub mod Secret
pub mod Service
pub mod Hook
pub mod Refusals
pub mod Quota
pub mod Charge
pub mod Day
pub mod Lifecycle
use freellm_gateway.Base.{
  ℕ, ◌+◌, ◌-◌, String, Bool, true, false, not, ◌&&◌, ◌||◌, Option, none, some, List, ltb, leb, ◌==◌,
  eq_nat, eq_string, if◌then◌else◌, or_else,
}
use freellm_gateway.Base.Dict.{lookup, insert}
use freellm_gateway.Limits.{Store, OrgRpmBucket}

-- `VirtualKeyPermissions` of packages/shared/src/types.ts. A limit may be absent, null or a number.
pub record KeyPermissions : Type 0 where
  pub allowed_models : Option (List String)
  pub denied_models : Option (List String)
  pub allowed_providers : Option (List String)
  pub max_requests_per_minute : Option (Option ℕ)
  pub max_requests_per_day : Option (Option ℕ)
  pub max_tokens_per_day : Option (Option ℕ)
  pub max_embeddings_per_day : Option (Option ℕ)
  pub max_cost_usd_per_day : Option (Option ℕ)
  pub allow_paid_models : Bool
  pub allow_streaming : Bool
  pub reasoning_effort : Option String
  pub allow_reasoning : Option Bool

pub record DayBucket : Type 0 where
  pub day : String
  pub requests : ℕ
  pub tokens : ℕ
  pub embeddings : ℕ

-- The counters of the process, and the key-value store that the organization and demo limits use.
pub record AuthState : Type 0 where
  pub rpm_buckets : List (String × OrgRpmBucket)
  pub day_buckets : List (String × DayBucket)
  pub kv : Store

abbrev pub unlimited : Option ℕ → Bool
unlimited limit = or_else limit 0 == 0

unfoldable pub enforce_rpm : String → Option ℕ → ℕ → AuthState → AuthState × Bool
enforce_rpm key_id limit now s =
    let opened : AuthState × Bool = (
      record s {
        rpm_buckets = insert key_id (record { window_start = now; calls = 1 }) s.rpm_buckets;
      },
      true,
    ) in
    if unlimited limit then (s, true) else elim (lookup key_id s.rpm_buckets) [
      | none ↦ opened
      | some b ↦
          if ltb 60000 (now - b.window_start)
          then opened
          else if leb (or_else limit 0) b.calls
          then (s, false)
          else (
            record s {
              rpm_buckets = insert key_id (record b { calls = b.calls + 1 }) s.rpm_buckets;
            },
            true,
          )
    ]

-- The bucket of a day: none where the key has none, or one of another day.
abbrev pub bucket_of : String → Option DayBucket → Option DayBucket
bucket_of day none = none
bucket_of day (some b) = if b.day == day then some b else none

abbrev pub fresh_bucket : String → ℕ → ℕ → ℕ → DayBucket
fresh_bucket day requests tokens embeddings = record {
  day = day;
  requests = requests;
  tokens = tokens;
  embeddings = embeddings;
}

abbrev pub put_bucket : String → DayBucket → AuthState → AuthState
put_bucket key_id b s = record s { day_buckets = insert key_id b s.day_buckets }

unfoldable pub enforce_daily_requests : String → Option ℕ → String → AuthState → AuthState × Bool
enforce_daily_requests key_id limit day s =
    if unlimited limit then (s, true) else elim (bucket_of day (lookup key_id s.day_buckets)) [
      | none ↦ (put_bucket key_id (fresh_bucket day 1 0 0) s, true)
      | some b ↦
          if leb (or_else limit 0) b.requests
          then (s, false)
          else (put_bucket key_id (record b { requests = b.requests + 1 }) s, true)
    ]

unfoldable pub record_token_usage : String → ℕ → String → AuthState → AuthState
record_token_usage key_id tokens day s = elim (bucket_of day (lookup key_id s.day_buckets)) [
  | none ↦ put_bucket key_id (fresh_bucket day 0 tokens 0) s
  | some b ↦ put_bucket key_id (record b { tokens = b.tokens + tokens }) s
]

unfoldable pub enforce_daily_tokens : String → Option ℕ → String → AuthState → Bool
enforce_daily_tokens key_id limit day s =
    if unlimited limit then true else elim (bucket_of day (lookup key_id s.day_buckets)) [
      | none ↦ true
      | some b ↦ ltb b.tokens (or_else limit 0)
    ]

unfoldable pub enforce_daily_embeddings : String → Option ℕ → String → AuthState → AuthState × Bool
enforce_daily_embeddings key_id limit day s =
    if unlimited limit then (s, true) else elim (bucket_of day (lookup key_id s.day_buckets)) [
      | none ↦ (put_bucket key_id (fresh_bucket day 0 0 1) s, true)
      | some b ↦
          if leb (or_else limit 0) b.embeddings
          then (s, false)
          else (put_bucket key_id (record b { embeddings = b.embeddings + 1 }) s, true)
    ]
