-- ===== src/Health.antt =====
-- apps/api/src/services/provider-health.service.ts: one check of a provider, with the tables that
-- it writes. What `checkHealth` reports within its timeout is an argument, as are new ids and the
-- times; a report that fails with an error or a timeout is `degraded` with the error's message. The
-- event on the bus has the result of the check. The details of a report, stored as JSON, are left
-- out. Gate has what the router sees of it, Standing how many stand at once.
pub mod Gate
pub mod Standing
use freellm_gateway.Base.{
  ℕ, ◌+◌, String, Bool, true, false, not, ◌&&◌, ◌||◌, Option, none, some, List, [], ◌∷◌, ◌++◌, map,
  find, ◌==◌, eq_nat, eq_string, if◌then◌else◌, leb, or_else, is_some,
}
use freellm_gateway.Classify.{some_match}
use freellm_gateway.Classify.Regex.{words}
use freellm_gateway.Cooldown.{provider}
use freellm_gateway.Cooldown.PrismaStore.{Row, matches}

pub record Report : Type 0 where
  pub ok : Bool
  pub status : String
  pub latency_ms : Option ℕ
  pub message : Option String

pub record ProviderRow : Type 0 where
  pub id : String
  pub slug : String
  pub status : String
  pub last_health_at : Option ℕ
  pub last_success_at : Option ℕ
  pub last_error_at : Option ℕ
  pub last_error_message : Option String
  pub error_count_24h : ℕ

pub record HealthCheck : Type 0 where
  pub provider_id : String
  pub ok : Bool
  pub latency_ms : ℕ
  pub error_kind : Option String
  pub error_message : Option String
  pub taken_at : ℕ

pub record Db : Type 0 where
  pub providers : List ProviderRow
  pub checks : List HealthCheck
  pub cooldowns : List Row

pub record CheckResult : Type 0 where
  pub provider_slug : String
  pub ok : Bool
  pub status : String
  pub latency_ms : ℕ
  pub message : Option String
  pub error_kind : Option String
  pub taken_at : ℕ

-- `classifyError`; a search without regard to case is one in the lowered text.
unfoldable pub classify_error : Option String → String
unfolding some_match
classify_error none = "unknown"
classify_error (some msg) =
    if msg == ""
    then "unknown"
    else if some_match (words "timeout" [] ∷ words "timed out" [] ∷ words "etimedout" [] ∷ []) msg
    then "timeout"
    else if some_match (words "429" [] ∷ words "rate limit" [] ∷ []) msg
    then "rate_limited"
    else if some_match (words "401" [] ∷ words "403" [] ∷ words "unauth" [] ∷ []) msg
    then "auth"
    else if some_match (words "502" [] ∷ words "503" [] ∷ words "504" [] ∷ []) msg
    then "upstream_5xx"
    else if some_match (words "econnrefused" [] ∷ words "enotfound" [] ∷ []) msg
    then "network"
    else "upstream_error"

abbrev pub kind_of : Report → Option String
kind_of report = if report.ok then none else some (classify_error report.message)

-- The update of the provider's row.
unfoldable pub updated : ℕ → Report → ProviderRow → ProviderRow
unfolding classify_error
updated taken report p =
    if report.ok
    then record p {
      last_health_at = some taken;
      status = report.status;
      last_success_at = some taken;
      error_count_24h = 0;
    }
    else record p {
      last_health_at = some taken;
      status = report.status;
      last_error_at = some taken;
      last_error_message = some (or_else report.message (or_else (kind_of report) "unknown"));
      error_count_24h = p.error_count_24h + 1;
    }

-- A cooldown of the provider that lasts at a time and is not resolved.
abbrev pub is_standing : ℕ → String → Row → Bool
is_standing taken id r =
    matches provider id r && leb taken r.expires_at && not (is_some r.resolved_at)

abbrev pub failure_cooldown : ℕ → String → ℕ → Report → ProviderRow → Row
failure_cooldown backoff_ms fresh taken report p = record {
  id = fresh;
  scope = provider;
  model_id = none;
  provider_id = some p.id;
  reason = or_else (kind_of report) "health_check_failed";
  attempts = 1;
  backoff_ms = backoff_ms;
  expires_at = taken + backoff_ms;
  half_open = false;
  created_at = taken;
  resolved_at = none;
}

-- The cooldowns after a check.
unfoldable pub cool : ℕ → String → ℕ → Report → ProviderRow → List Row → List Row
unfolding classify_error
cool backoff_ms fresh taken report p rows =
    if report.ok
    then rows
    else if is_some (find (is_standing taken p.id) rows)
    then rows
    else rows ++ failure_cooldown backoff_ms fresh taken report p ∷ []

abbrev pub check_row : ℕ → ℕ → Report → ProviderRow → HealthCheck
check_row elapsed taken report p = record {
  provider_id = p.id;
  ok = report.ok;
  latency_ms = or_else report.latency_ms elapsed;
  error_kind = kind_of report;
  error_message = if report.ok then none else report.message;
  taken_at = taken;
}

-- The writes of `checkOne` for the row with the slug, if there is one.
unfoldable pub record_check : ℕ → String → ℕ → ℕ → String → Report → Db → Db
unfolding updated cool classify_error
record_check backoff_ms fresh elapsed taken slug report db =
    elim (find (λ (p : ProviderRow). p.slug == slug) db.providers) [
      | none ↦ db
      | some p ↦ record {
        providers =
            map (λ (q : ProviderRow). if q.id == p.id then updated taken report q else q)
              db.providers;
        checks = db.checks ++ check_row elapsed taken report p ∷ [];
        cooldowns = cool backoff_ms fresh taken report p db.cooldowns;
      }
    ]

-- `checkOne` of a provider that is registered.
unfoldable pub check_one : ℕ → String → ℕ → ℕ → String → Report → Db → CheckResult × Db
unfolding record_check classify_error
check_one backoff_ms fresh elapsed taken slug report db = (
  record {
    provider_slug = slug;
    ok = report.ok;
    status = report.status;
    latency_ms = or_else report.latency_ms elapsed;
    message = report.message;
    error_kind = kind_of report;
    taken_at = taken;
  },
  record_check backoff_ms fresh elapsed taken slug report db,
)
