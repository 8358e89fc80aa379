-- ===== src/Alerts/Budget.antt =====
-- apps/api/src/services/budget.service.ts. The database's sum of the costs is a left fold from 0.
use freellm_gateway.Base.{
  ℕ, ◌+◌, ◌*◌, String, Bool, true, not, ◌&&◌, ◌||◌, Option, none, some, List, [], ◌∷◌, filter, ◌==◌,
  eq_string, if◌then◌else◌, leb, or_else, is_some,
}
use freellm_gateway.Number.{Number, max_of}
use freellm_gateway.Alerts.Usage.{day_ms}

abbrev pub period_ms : String → ℕ
period_ms period =
    if period == "day" then day_ms else if period == "week" then 7 * day_ms else 30 * day_ms

module _ (N : Number) where
  open N use {F, lit, add, sub, mul, div, less, round}

  pub record Budget : Type 0 where
    pub scope : String
    pub target_id : Option String
    pub limit_usd : F
    pub period : String
    pub enabled : Bool

  -- The columns of `request_logs` that the services read.
  pub record LogRow : Type 0 where
    pub virtual_key_id : Option String
    pub upstream_model : Option String
    pub started_at : ℕ
    pub status : Option ℕ
    pub estimated_cost_usd : Option F

  pub record BudgetSpend : Type 0 where
    pub spent : F
    pub limit : F
    pub pct : F
    pub remaining : F

  -- A condition of a scope holds of the requests of its target.
  abbrev pub meets : Budget → String → Option String → Bool
  meets b scope column = elim b.target_id [
    | none ↦ true
    | some target ↦
        not (b.scope == scope && not (target == ""))
        || (is_some column && or_else column "" == target)
  ]

  abbrev pub is_counted : ℕ → Budget → LogRow → Bool
  is_counted now b l =
      leb now (l.started_at + period_ms b.period)
      && is_some l.estimated_cost_usd
      && meets b "vk" l.virtual_key_id
      && meets b "model" l.upstream_model

  abbrev pub sum_costs : F → List LogRow → F
  sum_costs total [] = total
  sum_costs total (l ∷ ls) = sum_costs (add total (or_else l.estimated_cost_usd (lit 0 1))) ls

  unfoldable pub compute_spend : ℕ → List LogRow → Budget → BudgetSpend
  compute_spend now logs b =
      let spent = sum_costs (lit 0 1) (filter (is_counted now b) logs) in
      record {
        spent = spent;
        limit = b.limit_usd;
        pct =
            if less (lit 0 1) b.limit_usd
            then div (round (mul (div spent b.limit_usd) (lit 10000 1))) (lit 100 1)
            else lit 0 1;
        remaining = max_of N (lit 0 1) (sub b.limit_usd spent);
      }

  -- The loop of `maxUsagePct`.
  abbrev pub max_pct : ℕ → List LogRow → F → List Budget → F
  max_pct now logs top [] = top
  max_pct now logs top (b ∷ bs) =
      let pct = (compute_spend now logs b).pct in
      max_pct now logs (if less top pct then pct else top) bs

  unfoldable pub max_usage_pct : ℕ → List LogRow → List Budget → F
  unfolding compute_spend
  max_usage_pct now logs budgets =
      max_pct now logs (lit 0 1) (filter (λ (b : Budget). b.enabled) budgets)
