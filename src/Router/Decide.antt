-- ===== src/Router/Decide.antt =====
-- `Router.decide` and `modeRationale`.
use Prim.Native.String.{◌++◌ as joined}
use freellm_gateway.Base.{
  ℕ, String, Bool, not, Option, none, some, List, [], ◌∷◌, ◌++◌, map, ◌==◌, eq_string, eq_nat,
  if◌then◌else◌, or_else, filter, find, take, any,
}
use freellm_gateway.Number.{Number}
use freellm_gateway.Scorer.{ScoreExplanation, score_model}
use freellm_gateway.Router.{
  RoutingMode, auto_best_free, round_robin_free, weighted_free, openrouter_free_router,
  prefer_model_fallback, provider_specific, paid_allowed, PoolModel, RouteRequestContext,
  FilteredOut, alias_handler, refusal,
}
use freellm_gateway.Router.Order.{order_for_mode, to_score_input}

module _ (N : Number) where
  open N use {F, to_fixed}

  pub record Candidate : Type 0 where
    pub model : PoolModel F
    pub score : ScoreExplanation N
    pub rationale : String

  pub record RoutingDecision : Type 0 where
    pub candidates : List Candidate
    pub mode : RoutingMode
    pub filtered_out : List FilteredOut

  unfoldable pub mode_rationale : RoutingMode → PoolModel F → ScoreExplanation N → String
  mode_rationale auto_best_free m score =
      joined "auto pick: composite="
        (joined (to_fixed score.composite 2) (joined " (" (joined score.summary ")")))
  mode_rationale round_robin_free m score =
      joined "round-robin slot — composite=" (to_fixed score.composite 2)
  mode_rationale weighted_free m score =
      joined "weighted draw — composite=" (to_fixed score.composite 2)
  mode_rationale openrouter_free_router m score = "openrouter/free router"
  mode_rationale prefer_model_fallback m score =
      joined "fallback after explicit model — composite=" (to_fixed score.composite 2)
  mode_rationale provider_specific m score = joined "provider-pinned to " m.provider_slug
  mode_rationale paid_allowed m score = joined "paid fallback allowed — composite=" (
      joined (to_fixed score.composite 2)
        (joined ", free=" (if m.is_free then "true" else "false")))

  abbrev pub keep_by : Option (PoolModel F → Bool) → List (PoolModel F) → List (PoolModel F)
  keep_by none pool = pool
  keep_by (some keep) pool = filter keep pool

  -- The pool after the alias: `aliasFiltered`.
  unfoldable pub alias_filtered : RouteRequestContext F → List (PoolModel F) → List (PoolModel F)
  alias_filtered ctx pool = elim ctx.alias [
    | none ↦ pool
    | some a ↦ keep_by (alias_handler N a) pool
  ]

  -- `list.includes(m)`, by identity.
  abbrev pub includes : List (PoolModel F) → PoolModel F → Bool
  includes xs m = any (λ x. x.ref == m.ref) xs

  -- What the alias leaves out is reported first.
  unfoldable pub alias_reports : RouteRequestContext F → List (PoolModel F) → List FilteredOut
  alias_reports ctx pool = elim ctx.alias [
    | none ↦ []
    | some a ↦ elim (alias_handler N a) [
      | none ↦ []
      | some _ ↦
          map (λ m. record { upstream_id = m.upstream_id; reason = joined "alias " a })
            (filter (λ m. not (includes (alias_filtered ctx pool) m)) pool)
    ]
  ]

  -- The loop over `aliasFiltered`: the survivors, and the reports of the others.
  unfoldable pub survivors : RouteRequestContext F → List (PoolModel F) → List (PoolModel F)
  survivors ctx [] = []
  survivors ctx (m ∷ ms) =
      let rest = survivors ctx ms in elim (refusal ctx m) [ none ↦ m ∷ rest | some _ ↦ rest ]

  unfoldable pub reports : RouteRequestContext F → List (PoolModel F) → List FilteredOut
  reports ctx [] = []
  reports ctx (m ∷ ms) =
      let rest = reports ctx ms in
      elim (refusal ctx m) [
        | none ↦ rest
        | some why ↦ record { upstream_id = m.upstream_id; reason = why } ∷ rest
      ]

  -- `[pinned, ...ordered.filter((m) => m !== pinned)]`
  unfoldable pub pin_found : Option (PoolModel F) → List (PoolModel F) → List (PoolModel F)
  pin_found none ordered = ordered
  pin_found (some pinned) ordered = pinned ∷ filter (λ m. not (m.ref == pinned.ref)) ordered

  -- `ctx.explicitModel && mode === 'prefer-model-fallback'`
  unfoldable pub pin_explicit :
      RoutingMode
      → RouteRequestContext F
      → List (PoolModel F)
      → List (PoolModel F)
      → List (PoolModel F)
  pin_explicit prefer_model_fallback ctx alive ordered =
      let wanted = or_else ctx.explicit_model "" in
      if wanted == ""
      then ordered
      else pin_found (find (λ m. m.upstream_id == wanted) alive) ordered
  pin_explicit _ ctx alive ordered = ordered

  -- `mode === 'provider-specific' && typeof providerSlug === 'string'`
  unfoldable pub pin_provider :
      RoutingMode → Option String → List (PoolModel F) → List (PoolModel F)
  pin_provider provider_specific (some slug) ordered = filter (λ m. m.provider_slug == slug) ordered
  pin_provider _ _ ordered = ordered

  unfoldable pub ranked : (ℕ → F) → RouteRequestContext F → List (PoolModel F) → List (PoolModel F)
  ranked draws ctx alive =
      pin_provider ctx.policy.mode ctx.policy.provider_slug
        (pin_explicit ctx.policy.mode ctx alive (order_for_mode N draws ctx alive))

  abbrev pub candidate_of : RouteRequestContext F → PoolModel F → Candidate
  candidate_of ctx m =
      let score = score_model N (to_score_input N m) ctx.policy.weights in
      record { model = m; score = score; rationale = mode_rationale ctx.policy.mode m score }

  unfoldable pub decide : (ℕ → F) → List (PoolModel F) → RouteRequestContext F → RoutingDecision
  decide draws pool ctx =
      let kept = alias_filtered ctx pool in
      record {
        candidates =
            map (candidate_of ctx)
              (take ctx.max_candidates (ranked draws ctx (survivors ctx kept)));
        mode = ctx.policy.mode;
        filtered_out = alias_reports ctx pool ++ reports ctx kept;
      }
