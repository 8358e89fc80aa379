-- ===== src/Alerts/Rules.antt =====
-- apps/api/src/services/alert-rule.service.ts: the metrics, and the evaluation of the rules. The
-- bus event and the channels' messages go out with a row of `error_events`; a failure of the channels
-- is only logged. Repeats has what a rule on the number of errors does to itself.
pub mod Repeats
use Prim.Native.String
use freellm_gateway.Base.{
  ℕ, ◌+◌, String, Bool, true, false, not, ◌&&◌, Option, none, some, List, [], ◌∷◌, ◌++◌, map,
  filter, length, ◌==◌, eq_nat, eq_string, if◌then◌else◌, ltb, leb, or_else, is_some,
}
use freellm_gateway.Number.{Number, at_most}
use freellm_gateway.Alerts.Usage.{day_ms}
use freellm_gateway.Alerts.Budget.{Budget, LogRow, max_usage_pct}

pub record ErrorEvent : Type 0 where
  pub kind : String
  pub created_at : ℕ
  pub resolved_at : Option ℕ

pub record CooldownRow : Type 0 where
  pub expires_at : ℕ
  pub resolved_at : Option ℕ

abbrev pub of_last_day : ℕ → ErrorEvent → Bool
of_last_day now e = leb now (e.created_at + day_ms)

abbrev pub is_open : ErrorEvent → Bool
is_open e = not (is_some e.resolved_at)

module _ (N : Number) where
  open N use {F, lit, mul, div, less, round}

  -- The tables that the metrics read beside `error_events`; of the keys, the marks.
  pub record Tables : Type 0 where
    pub cooldowns : List CooldownRow
    pub keys_enabled : List Bool
    pub logs : List (LogRow N)
    pub budgets : List (Budget N)

  pub record AlertRule : Type 0 where
    pub id : String
    pub name : String
    pub metric : String
    pub operator : String
    pub threshold : F
    pub enabled : Bool
    pub last_triggered_at : Option ℕ
    pub last_value : Option F

  abbrev pub count : {A : Type 0} → (A → Bool) → List A → F
  count p rows = lit (length (filter p rows)) 1

  unfoldable pub error_rate : ℕ → List (LogRow N) → F
  error_rate now logs =
      let of_day = filter (λ (l : LogRow N). leb now (l.started_at + day_ms)) logs in
      let failed = filter (λ (l : LogRow N). leb 400 (or_else l.status 0)) of_day in
      if length of_day == 0
      then lit 0 1
      else div (round (mul (div (lit (length failed) 1) (lit (length of_day) 1)) (lit 10000 1)))
          (lit 100 1)

  -- `METRICS[metric]`, none for a name that is not there.
  unfoldable pub metric_value : ℕ → Tables → List ErrorEvent → String → Option F
  unfolding error_rate max_usage_pct
  metric_value now t errors metric =
      if metric == "error_count_24h"
      then some (count (λ e. of_last_day now e && is_open e) errors)
      else if metric == "webhook_failures_24h"
      then some (count (λ e. e.kind == "webhook_delivery_failed" && of_last_day now e) errors)
      else if metric == "active_cooldowns"
      then some (
          count (λ (c : CooldownRow). not (is_some c.resolved_at) && ltb now c.expires_at)
            t.cooldowns)
      else if metric == "enabled_vk_count"
      then some (count (λ (b : Bool). b) t.keys_enabled)
      else if metric == "request_error_rate_24h"
      then some (error_rate now t.logs)
      else if metric == "budget_max_usage_pct"
      then some (max_usage_pct N now t.logs t.budgets)
      else none

  unfoldable pub compare_op : F → String → F → Bool
  compare_op value op threshold =
      if op == "gt"
      then less threshold value
      else if op == "gte"
      then at_most N threshold value
      else if op == "lt"
      then less value threshold
      else if op == "lte"
      then at_most N value threshold
      else false

  -- The row that a hit writes.
  abbrev pub event_of : ℕ → AlertRule → ErrorEvent
  event_of now r = record {
    kind = Prim.Native.String.◌++◌ "alert_rule:" r.name;
    created_at = now;
    resolved_at = none;
  }

  -- What the loop carries: the events, the updated rules and the number of hits.
  pub record Progress : Type 0 where
    pub errors : List ErrorEvent
    pub rules : List AlertRule
    pub triggered : ℕ

  -- One rule, with the value of its metric.
  unfoldable pub judge : ℕ → AlertRule → Option F → List ErrorEvent → Progress
  unfolding compare_op
  judge now r none errors = record { errors = errors; rules = r ∷ []; triggered = 0 }
  judge now r (some value) errors =
      if compare_op value r.operator r.threshold
      then record {
        errors = errors ++ event_of now r ∷ [];
        rules = record r { last_triggered_at = some now; last_value = some value } ∷ [];
        triggered = 1;
      }
      else record {
        errors = errors;
        rules = record r { last_value = some value } ∷ [];
        triggered = 0;
      }

  module _ (now : ℕ) (t : Tables) where
    -- One rule of the table; the query leaves those out that are not enabled.
    unfoldable pub evaluate_rule : AlertRule → List ErrorEvent → Progress
    unfolding judge metric_value
    evaluate_rule r errors =
        if r.enabled
        then judge now r (metric_value now t errors r.metric) errors
        else record { errors = errors; rules = r ∷ []; triggered = 0 }

    unfoldable pub evaluate : List AlertRule → List ErrorEvent → Progress
    unfolding evaluate_rule
    evaluate [] errors = record { errors = errors; rules = []; triggered = 0 }
    evaluate (r ∷ rs) errors =
        let first = evaluate_rule r errors in
        let rest = evaluate rs first.errors in
        record {
          errors = rest.errors;
          rules = first.rules ++ rest.rules;
          triggered = first.triggered + rest.triggered;
        }
