-- ===== src/Alerts/Balance/Cycle.antt =====
-- What a cycle alerts. Each cycle has a tracker of its own, so no alert is held back by an earlier
-- cycle.
use freellm_gateway.Base.{
  ℕ, ◌<◌, String, Bool, true, false, ◌&&◌, Option, none, List, [], ◌∷◌, map, ◌≡◌, refl, sym, ◌∙◌,
  ap, arith, ◌==◌, eq_string, if◌then◌else◌, ltb, All, if_elim,
}
use freellm_gateway.Base.Dict.{lookup, insert, lookup-insert}
use freellm_gateway.Number.{Number}
use freellm_gateway.Alerts.Usage.{AlertCache, day_ms}
use freellm_gateway.Alerts.Balance.{
  LogRow, Estimate, Forecast, estimate_of, is_low, forecast, forecasts, check_all,
}

-- A provider is registered once.
abbrev pub IsDistinct : List String → Type 0
IsDistinct [] = Unit
IsDistinct (s ∷ ss) = All (λ t. (s == t) ≡ false) ss × IsDistinct ss

abbrev IsUnseen : AlertCache → String → Type 0
IsUnseen cache s = lookup s cache ≡ none

insert-IsUnseen :
    (slug : String) (now : ℕ) (cache : AlertCache) (ss : List String)
    → All (λ t. (slug == t) ≡ false) ss
    → All (IsUnseen cache) ss
    → All (IsUnseen (insert slug now cache)) ss
insert-IsUnseen slug now cache [] apart unseen = tt
insert-IsUnseen slug now cache (s ∷ ss) apart unseen = (
  sym (lookup-insert s slug now cache) ∙ rw apart.0 unseen.0,
  insert-IsUnseen slug now cache ss apart.1 unseen.1,
)

module _ (N : Number) (balance_of : String → Option N.F) (logs : List LogRow) (now : ℕ) where
  -- What a forecast says in a cycle.
  abbrev pub expected : String → Forecast N
  expected slug =
      let e = estimate_of N now slug (balance_of slug) logs in
      record { estimate = e; alerted = is_low N (N.lit 3 1) e }

  forecast_cases :
      (low : Bool) (e : Estimate N) (kept set : AlertCache)
      → ◌≡◌ {A = Forecast N × AlertCache}
          (if low && true
            then (record { estimate = e; alerted = true }, set)
            else (record { estimate = e; alerted = false }, kept))
          (record { estimate = e; alerted = low }, if low then set else kept)
  forecast_cases true e kept set = refl
  forecast_cases false e kept set = refl

  module _ (late : day_ms < now) where
    forecast-unseen :
        (slug : String) (cache : AlertCache)
        → IsUnseen cache slug
        → forecast N (N.lit 3 1) now slug (balance_of slug) logs cache
          ≡ (expected slug, if (expected slug).alerted then insert slug now cache else cache)
    unfolding forecast
    forecast-unseen slug cache unseen =
        let e = estimate_of N now slug (balance_of slug) logs in
        let passed : ltb day_ms now ≡ true = ground (arith, late) in
        rw (unseen, passed)
          (forecast_cases (is_low N (N.lit 3 1) e) e cache (insert slug now cache))

    forecasts-expected :
        (slugs : List String) (cache : AlertCache)
        → IsDistinct slugs
        → All (IsUnseen cache) slugs
        → forecasts N balance_of logs now slugs cache ≡ map expected slugs
    unfolding forecasts
    forecasts-expected [] cache distinct unseen = refl
    forecasts-expected (slug ∷ slugs) cache distinct unseen =
        rw (forecast-unseen slug cache unseen.0) (
          ap (λ later. expected slug ∷ later)
            (forecasts-expected slugs _ distinct.1 (
              if_elim (λ c. All (IsUnseen c) slugs) (expected slug).alerted
                (λ low. insert-IsUnseen slug now cache slugs distinct.0 unseen.1)
                (λ fine. unseen.1))))

    -- Each cycle alerts exactly the providers whose estimate is below three days, however lately an
    -- earlier cycle alerted the same ones.
    check_all-expected :
        (slugs : List String)
        → IsDistinct slugs
        → (check_all N balance_of logs now slugs).found ≡ map expected slugs
    unfolding check_all lookup
    check_all-expected slugs distinct = forecasts-expected slugs [] distinct (none_seen slugs)
      where
        none_seen : (ss : List String) → All (IsUnseen []) ss
        none_seen [] = tt
        none_seen (s ∷ ss) = (refl, none_seen ss)
