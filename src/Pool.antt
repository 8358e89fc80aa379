-- ===== src/Pool.antt =====
-- apps/api/src/lib/pool-builder.ts: `buildPool` over the table of models. The reading of a model's
-- capabilities from its JSON is a parameter, none where it does not parse. A pool model's `ref` is
-- its place in the query's result. Routed composes the pool with the router, Overridden with the
-- automatic blacklist.
pub mod Routed
pub mod Overridden
use freellm_gateway.Base.{
  ℕ, zero, suc, ◌+◌, String, Bool, true, false, not, ◌&&◌, ◌||◌, Option, none, some, List, [], ◌∷◌,
  map, filter, take, ◌==◌, if◌then◌else◌, or_else,
}
use freellm_gateway.Number.{Number, max_of, min_of}
use freellm_gateway.Status.{ModelStatus, disabled, removed, status_eq}
use freellm_gateway.Scorer.{Capabilities, Dimensions}
use freellm_gateway.Router.{PoolModel}
use freellm_gateway.Blacklist.{ModelRow}

-- The columns of `model_scores` that the query selects.
pub record ScoreColumns (F : Type 0) : Type 0 where
  pub availability_score : F
  pub latency_score : F
  pub rate_limit_score : F
  pub quality_score : F
  pub context_score : F
  pub freshness_score : F
  pub cost_score : F
  pub stability_score : F

-- A row of `models`, with its provider and its scores. `model` has the columns that the automatic
-- blacklist reads and writes as well.
pub record PoolRow (F Json : Type 0) : Type 0 where
  pub model : ModelRow
  pub is_free : Bool
  pub context_length : ℕ
  pub capabilities_json : Json
  pub weight_adj : F
  pub provider_slug : String
  pub scores : Option (ScoreColumns F)

abbrev pub no_capabilities : Capabilities
no_capabilities = record {
  stream = false;
  json = false;
  tools = false;
  vision = false;
  audio = false;
}

module _ (N : Number) {Json : Type 0} (parse : Json → Option Capabilities) where
  open N use {F, lit, is_finite}

  -- `BASELINE`, where it is not 1 or the free price.
  abbrev pub baseline : F
  baseline = lit 1 2

  unfoldable pub clamp01_or_half : F → F
  unfolding max_of min_of
  clamp01_or_half n = if is_finite n then max_of N (lit 0 1) (min_of N (lit 1 1) n) else lit 1 2

  abbrev pub context_baseline : ℕ → F
  context_baseline context_length = clamp01_or_half (lit context_length 200000)

  abbrev pub scores_of : PoolRow F Json → Dimensions F
  scores_of m = elim m.scores [
    | some s ↦ record {
      availability = s.availability_score;
      latency = s.latency_score;
      rate_limit = s.rate_limit_score;
      quality = s.quality_score;
      context = s.context_score;
      freshness = s.freshness_score;
      cost = s.cost_score;
      stability = s.stability_score;
      first_token_latency = baseline;
    }
    | none ↦ record {
      availability = baseline;
      latency = baseline;
      rate_limit = baseline;
      quality = baseline;
      context = context_baseline m.context_length;
      freshness = baseline;
      cost = if m.is_free then lit 1 1 else lit 0 1;
      stability = baseline;
      first_token_latency = baseline;
    }
  ]

  unfoldable pub pool_model : ℕ → PoolRow F Json → PoolModel F
  pool_model place m = record {
    ref = place;
    model_id = m.model.id;
    upstream_id = m.model.upstream_id;
    provider_slug = m.provider_slug;
    is_free = m.is_free;
    context_length = m.context_length;
    capabilities = or_else (parse m.capabilities_json) no_capabilities;
    status = m.model.status;
    blacklisted = m.model.blacklisted;
    whitelisted = m.model.whitelisted;
    weight_adj = m.weight_adj;
    scores = scores_of m;
  }

  abbrev pub is_selected : PoolRow F Json → Bool
  is_selected m = not (m.model.status == removed || m.model.status == disabled)

  unfoldable pub place_from : ℕ → List (PoolRow F Json) → List (PoolModel F)
  place_from place [] = []
  place_from place (m ∷ ms) = pool_model place m ∷ place_from (suc place) ms

  unfoldable pub build_pool : List (PoolRow F Json) → List (PoolModel F)
  unfolding place_from
  build_pool rows = place_from 0 (take 800 (filter is_selected rows))
