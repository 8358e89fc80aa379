-- ===== src/Alerts/Usage.antt =====
-- apps/api/src/services/vk-usage-alert.service.ts: the keys that come close to their daily limits.
-- An event stands for the row of `error_events`, whose failure to be written is only logged, and for
-- the event on the bus. Spaced has the times between alerts.
pub mod Spaced
use Prim.Native.String
use freellm_gateway.Base.{
  ℕ, ◌+◌, ◌*◌, String, Bool, true, false, not, ◌&&◌, ◌||◌, Option, none, some, List, [], ◌∷◌, ◌++◌,
  filter, length, ◌==◌, eq_nat, eq_string, if◌then◌else◌, ltb, leb, or_else, is_some,
}
use freellm_gateway.Base.Dict.{lookup, insert}
use freellm_gateway.Number.{Number, at_most, min_of}

pub data Metric : Type 0 where
  requests tokens : Metric

abbrev pub metric_name : Metric → String
metric_name requests = "requests"
metric_name tokens = "tokens"

abbrev pub cache_key : String → Metric → String
cache_key vk metric = Prim.Native.String.◌++◌ vk (Prim.Native.String.◌++◌ ":" (metric_name metric))

-- `alertCache`
abbrev pub AlertCache : Type 0
AlertCache = List (String × ℕ)

pub record KeyRow : Type 0 where
  pub id : String
  pub label : String
  pub enabled : Bool
  pub revoked_at : Option ℕ
  pub max_requests_per_day : Option ℕ
  pub max_tokens_per_day : Option ℕ

-- The columns of `request_logs` that are read.
pub record LogRow : Type 0 where
  pub virtual_key_id : String
  pub started_at : ℕ
  pub total_tokens : Option ℕ

pub record UsageAlert : Type 0 where
  pub virtual_key_id : String
  pub label : String
  pub metric : Metric
  pub consumed : ℕ
  pub limit : ℕ
  pub triggered_at : ℕ

abbrev pub day_ms : ℕ
day_ms = 24 * 60 * 60000

abbrev pub todays : ℕ → String → LogRow → Bool
todays now vk l = l.virtual_key_id == vk && leb now (l.started_at + day_ms)

abbrev pub sum_tokens : List LogRow → ℕ
sum_tokens [] = 0
sum_tokens (l ∷ ls) = or_else l.total_tokens 0 + sum_tokens ls

abbrev pub requests_today : ℕ → String → List LogRow → ℕ
requests_today now vk logs = length (filter (todays now vk) logs)

abbrev pub tokens_today : ℕ → String → List LogRow → ℕ
tokens_today now vk logs = sum_tokens (filter (todays now vk) logs)

abbrev pub is_watched : KeyRow → Bool
is_watched vk =
    vk.enabled
    && not (is_some vk.revoked_at)
    && (is_some vk.max_requests_per_day || is_some vk.max_tokens_per_day)

module _ (N : Number) where
  open N use {F, lit, div}

  pub record Options : Type 0 where
    pub threshold_pct : F
    pub alert_cooldown_ms : ℕ

  -- `consumed / limit >= thresholdPct`, under a limit that is set and not 0.
  unfoldable pub is_close : Options → ℕ → Option ℕ → Bool
  is_close opts consumed none = false
  is_close opts consumed (some limit) =
      ltb 0 limit && at_most N opts.threshold_pct (div (lit consumed 1) (lit limit 1))

  -- `maybeEmit`: nothing while the last alert is younger than the cooldown.
  unfoldable pub maybe_emit :
      Options → ℕ → KeyRow → Metric → ℕ → ℕ → AlertCache → List UsageAlert × AlertCache
  maybe_emit opts now vk metric consumed limit cache =
      let key = cache_key vk.id metric in
      if ltb now (or_else (lookup key cache) 0 + opts.alert_cooldown_ms) then ([], cache) else (
        record {
          virtual_key_id = vk.id;
          label = vk.label;
          metric = metric;
          consumed = consumed;
          limit = limit;
          triggered_at = now;
        }
            ∷ [],
        insert key now cache,
      )

  -- The test of one metric in `checkAll`.
  unfoldable pub check_metric :
      Options → ℕ → KeyRow → Metric → ℕ → Option ℕ → AlertCache → List UsageAlert × AlertCache
  unfolding is_close maybe_emit
  check_metric opts now vk metric consumed limit cache =
      if is_close opts consumed limit
      then maybe_emit opts now vk metric consumed (or_else limit 0) cache
      else ([], cache)

  unfoldable pub check_key :
      Options → ℕ → List LogRow → KeyRow → AlertCache → List UsageAlert × AlertCache
  unfolding check_metric
  check_key opts now logs vk cache =
      let (first, cache') =
        check_metric opts now vk requests (requests_today now vk.id logs) vk.max_requests_per_day
          cache in
      let (second, cache'') =
        check_metric opts now vk tokens (tokens_today now vk.id logs) vk.max_tokens_per_day
          cache' in
      (first ++ second, cache'')

  -- The loop of `checkAll`.
  unfoldable pub check_keys :
      Options → ℕ → List LogRow → List KeyRow → AlertCache → List UsageAlert × AlertCache
  unfolding check_key
  check_keys opts now logs [] cache = ([], cache)
  check_keys opts now logs (vk ∷ vks) cache =
      let (first, cache') = check_key opts now logs vk cache in
      let (rest, cache'') = check_keys opts now logs vks cache' in (first ++ rest, cache'')

  unfoldable pub check_all :
      Options → ℕ → List LogRow → List KeyRow → AlertCache → List UsageAlert × AlertCache
  unfolding check_keys
  check_all opts now logs table cache = check_keys opts now logs (filter is_watched table) cache
