-- ===== src/Alerts/Balance.antt =====
-- apps/api/src/services/balance-tracker.service.ts and provider-balance-check.service.ts. The
-- balance that a provider reports is an argument, none where it reports none or the call fails. An
-- event on the bus goes out with each alert. Cycle has what a cycle alerts.
pub mod Cycle
use freellm_gateway.Base.{
  ℕ, ◌+◌, ◌*◌, String, Bool, true, false, not, ◌&&◌, Option, none, some, List, [], ◌∷◌, filter,
  length, ◌==◌, eq_string, if◌then◌else◌, ltb, leb, or_else,
}
use freellm_gateway.Base.Dict.{lookup, insert}
use freellm_gateway.Number.{Number}
use freellm_gateway.Alerts.Usage.{AlertCache, day_ms}

-- The columns of `request_logs` that are read.
pub record LogRow : Type 0 where
  pub upstream_provider : String
  pub started_at : ℕ
  pub total_tokens : Option ℕ

abbrev pub is_recent_of : ℕ → String → LogRow → Bool
is_recent_of now slug l = l.upstream_provider == slug && leb now (l.started_at + 7 * day_ms)

abbrev pub sum_tokens : List LogRow → ℕ
sum_tokens [] = 0
sum_tokens (l ∷ ls) = or_else l.total_tokens 0 + sum_tokens ls

module _ (N : Number) where
  open N use {F, lit, mul, div, less, round}

  -- The values that `forecast` computes before it alerts.
  pub record Estimate : Type 0 where
    pub provider_slug : String
    pub balance_remaining : Option F
    pub burn_rate_tokens_per_day : F
    pub burn_rate_usd_per_day : Option F
    pub estimated_days_remaining : Option F

  pub record Forecast : Type 0 where
    pub estimate : Estimate
    pub alerted : Bool

  unfoldable pub compute_burn_rate : ℕ → String → List LogRow → F
  compute_burn_rate now slug logs = elim (filter (is_recent_of now slug) logs) [
    | [] ↦ lit 0 1
    | l ∷ ls ↦ round (div (lit (sum_tokens (l ∷ ls)) 1) (lit 7 1))
  ]

  unfoldable pub usd_per_day : F → Option F
  usd_per_day tokens =
      if less (lit 0 1) tokens
      then some (
          div (round (mul (mul (div tokens (lit 1000 1)) (lit 1 1000)) (lit 10000 1)))
            (lit 10000 1))
      else none

  unfoldable pub days_remaining : Option F → Option F → Option F
  days_remaining (some balance) (some usd) =
      if less (lit 0 1) usd
      then some (div (round (mul (div balance usd) (lit 10 1))) (lit 10 1))
      else none
  days_remaining _ _ = none

  unfoldable pub estimate_of : ℕ → String → Option F → List LogRow → Estimate
  unfolding compute_burn_rate usd_per_day days_remaining
  estimate_of now slug balance logs =
      let tokens = compute_burn_rate now slug logs in
      let usd = usd_per_day tokens in
      record {
        provider_slug = slug;
        balance_remaining = balance;
        burn_rate_tokens_per_day = tokens;
        burn_rate_usd_per_day = usd;
        estimated_days_remaining = days_remaining balance usd;
      }

  -- `estimatedDaysRemaining !== null && estimatedDaysRemaining < alertThresholdDays`
  unfoldable pub is_low : F → Estimate → Bool
  is_low threshold e = elim e.estimated_days_remaining [
    | none ↦ false
    | some days ↦ less days threshold
  ]

  -- `forecast`, with the tracker's `alertCache`.
  unfoldable pub forecast :
      F → ℕ → String → Option F → List LogRow → AlertCache → Forecast × AlertCache
  unfolding estimate_of is_low
  forecast threshold now slug balance logs cache =
      let e = estimate_of now slug balance logs in
      if is_low threshold e && ltb (or_else (lookup slug cache) 0 + day_ms) now
      then (record { estimate = e; alerted = true }, insert slug now cache)
      else (record { estimate = e; alerted = false }, cache)

  module _ (balance_of : String → Option F) (logs : List LogRow) (now : ℕ) where
    -- The loop of `checkAll`, with one tracker.
    unfoldable pub forecasts : List String → AlertCache → List Forecast
    unfolding forecast
    forecasts [] cache = []
    forecasts (slug ∷ slugs) cache =
        let (f, cache') = forecast (lit 3 1) now slug (balance_of slug) logs cache in
        f ∷ forecasts slugs cache'

    -- `BalanceCheckCycleResult`; an `error_events` row is written for each alerted forecast.
    pub record CycleResult : Type 0 where
      pub total : ℕ
      pub alerted : ℕ
      pub found : List Forecast

    unfoldable pub check_all : List String → CycleResult
    unfolding forecasts
    check_all slugs =
        let found = forecasts slugs [] in
        record {
          total = length slugs;
          alerted = length (filter (λ (f : Forecast). f.alerted) found);
          found = found;
        }
