-- ===== src/Witnesses/Alerts.antt =====
-- A key at nine of ten requests, a provider with a low balance, and a rule on the number of errors.
use freellm_gateway.Base.{
  ℕ, ◌+◌, ◌*◌, ◌≤◌, String, Bool, true, false, Option, none, some, List, [], ◌∷◌, map, filter, ◌≡◌,
  refl, inl, arith, All, ◌==◌, eq_string, if◌then◌else◌,
}
use freellm_gateway.Alerts.Usage
use freellm_gateway.Alerts.Usage.{
  requests, cache_key, AlertCache, KeyRow, Options, day_ms, is_watched, check_all,
}
use freellm_gateway.Alerts.Usage.Spaced.{Spaced, last_alert, times_of, cycles, cycles-Spaced}
use freellm_gateway.Alerts.Balance
use freellm_gateway.Alerts.Rules.{ErrorEvent, Tables, AlertRule, compare_op}
use freellm_gateway.Alerts.Rules.Repeats.{evaluations, evaluations-hit}
use freellm_gateway.Witnesses.Data.{thousandths}

abbrev options : Options thousandths
options = record { threshold_pct = 800; alert_cooldown_ms = day_ms }

abbrev team : KeyRow
team = record {
  id = "vk1";
  label = "team";
  enabled = true;
  revoked_at = none;
  max_requests_per_day = some 10;
  max_tokens_per_day = none;
}

abbrev log : ℕ → Usage.LogRow
log at = record { virtual_key_id = "vk1"; started_at = at; total_tokens = some 50 }

abbrev logs : List Usage.LogRow
logs = map log (1 ∷ 2 ∷ 3 ∷ 4 ∷ 5 ∷ 6 ∷ 7 ∷ 8 ∷ 9 ∷ [])

abbrev noon : ℕ
noon = 86400000

-- The second cycle is an hour behind the first, the third a day.
abbrev runs : List (ℕ × List Usage.LogRow × List KeyRow)
runs =
    (noon, logs, team ∷ [])
    ∷ (noon + 3600000, logs, team ∷ [])
    ∷ (2 * noon, map log (noon ∷ noon ∷ noon ∷ noon ∷ noon ∷ noon ∷ noon ∷ noon ∷ []), team ∷ [])
    ∷ []

cycles-Spaced_example :
    Spaced day_ms
      (last_alert (cache_key "vk1" requests) [])
      (times_of (cache_key "vk1" requests) (cycles thousandths options runs []).0)
cycles-Spaced_example = cycles-Spaced thousandths options runs (cache_key "vk1" requests) []

twice :
    times_of (cache_key "vk1" requests) (cycles thousandths options runs []).0
    ≡ noon ∷ 2 * noon ∷ []
unfolding cycles check_all freellm_gateway.Alerts.Usage.check_keys
    freellm_gateway.Alerts.Usage.check_key freellm_gateway.Alerts.Usage.check_metric
    freellm_gateway.Alerts.Usage.is_close freellm_gateway.Alerts.Usage.maybe_emit
    freellm_gateway.Number.at_most freellm_gateway.Base.Dict.lookup freellm_gateway.Base.Dict.insert
twice = refl

abbrev balance_of : String → Option ℕ
balance_of slug = if slug == "openrouter" then some 1 else none

abbrev spent : List Balance.LogRow
spent =
    record { upstream_provider = "openrouter"; started_at = noon; total_tokens = some 700000000 }
    ∷ []

abbrev nothing : Tables thousandths
nothing = record { cooldowns = []; keys_enabled = []; logs = []; budgets = [] }

abbrev any_error : AlertRule thousandths
any_error = record {
  id = "r1";
  name = "errors";
  metric = "error_count_24h";
  operator = "gte";
  threshold = 1000;
  enabled = true;
  last_triggered_at = none;
  last_value = none;
}

abbrev one_error : List ErrorEvent
one_error = record { kind = "upstream_error"; created_at = noon; resolved_at = none } ∷ []

fires : (n : ℕ) → 1 ≤ n → compare_op thousandths (thousandths.lit n 1) "gte" 1000 ≡ true
unfolding compare_op freellm_gateway.Number.at_most
fires n h = ground (arith, h)

evaluations-hit_example :
    All
      (λ n. 1 ≤ n)
      (evaluations thousandths nothing
        ((noon + 3600000) ∷ 2 * noon ∷ 3 * noon ∷ [])
        (any_error ∷ [])
        one_error)
evaluations-hit_example =
    evaluations-hit thousandths nothing noon ((noon + 3600000) ∷ 2 * noon ∷ 3 * noon ∷ [])
      (any_error ∷ []) one_error (inl (record { enabled = refl; metric = refl; fires = fires }))
      (omega arith) (omega arith)
