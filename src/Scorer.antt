-- ===== src/Scorer.antt =====
-- packages/routing-core/src/scorer.ts: the composite score of a model.
pub mod Composite
pub mod Sample
pub mod Update
pub mod Recorded
use Prim.Native.String.{◌++◌}
use freellm_gateway.Base.{
  ℕ, ◌+◌, String, Bool, true, false, ◌&&◌, Option, none, some, List, [], ◌∷◌, map, if◌then◌else◌,
  or_else, filter, take,
}
use freellm_gateway.Base.Sort.{sort_by}
use freellm_gateway.Number.{Number, clamp01, max_of, min_of}

-- `ModelCapabilities` of packages/shared/src/types.ts, the five that routing reads.
pub record Capabilities : Type 0 where
  pub stream : Bool
  pub json : Bool
  pub tools : Bool
  pub vision : Bool
  pub audio : Bool

-- One value for each of the nine dimensions: the weights, a policy's partial weights (`Option F`)
-- and the scores of a model.
pub record Dimensions (A : Type 0) : Type 0 where
  pub availability : A
  pub latency : A
  pub rate_limit : A
  pub quality : A
  pub context : A
  pub freshness : A
  pub cost : A
  pub stability : A
  pub first_token_latency : A

module _ (N : Number) where
  open N use {F, lit, add, mul, neg, less, equal, to_fixed}

  pub record ScoreInput : Type 0 where
    pub model_id : String
    pub upstream_id : String
    pub provider_slug : String
    pub scores : Dimensions F
    pub weight_adj : Option F
    pub blacklisted : Bool
    pub whitelisted : Bool
    pub capabilities : Capabilities
    pub context_length : ℕ
    pub is_free : Bool

  pub record ScoreDimension : Type 0 where
    pub dimension : String
    pub weight : F
    pub raw_score : F
    pub contribution : F

  pub record ScoreExplanation : Type 0 where
    pub model_id : String
    pub upstream_id : String
    pub provider_slug : String
    pub composite : F
    pub weight_adj : F
    pub blacklist_penalty : F
    pub whitelist_bonus : F
    pub dimensions : List ScoreDimension
    pub summary : String

  -- `DEFAULT_WEIGHTS` and the first-token weight.
  abbrev pub full_weights : Dimensions F
  full_weights = record {
    availability = lit 3 10;
    latency = lit 15 100;
    rate_limit = lit 2 10;
    quality = lit 15 100;
    context = lit 1 10;
    freshness = lit 5 100;
    cost = lit 0 1;
    stability = lit 5 100;
    first_token_latency = lit 5 100;
  }

  -- `{ ...FULL_WEIGHTS_WITH_FIRST_TOKEN, ...opts.weights }`
  unfoldable pub spread_weights : Option (Dimensions (Option F)) → Dimensions F
  spread_weights none = full_weights
  spread_weights (some w) = record {
    availability = or_else w.availability full_weights.availability;
    latency = or_else w.latency full_weights.latency;
    rate_limit = or_else w.rate_limit full_weights.rate_limit;
    quality = or_else w.quality full_weights.quality;
    context = or_else w.context full_weights.context;
    freshness = or_else w.freshness full_weights.freshness;
    cost = or_else w.cost full_weights.cost;
    stability = or_else w.stability full_weights.stability;
    first_token_latency = or_else w.first_token_latency full_weights.first_token_latency;
  }

  -- One entry of `dims`, with the contribution that the loop below it sets.
  abbrev pub dimension_of : String → F → F → ScoreDimension
  dimension_of name weight score = record {
    dimension = name;
    weight = weight;
    raw_score = clamp01 N score;
    contribution = mul weight (clamp01 N score);
  }

  unfoldable pub dims_of : Dimensions F → Dimensions F → List ScoreDimension
  dims_of w s =
      dimension_of "availability" w.availability s.availability
      ∷ dimension_of "latency" w.latency s.latency
      ∷ dimension_of "rateLimit" w.rate_limit s.rate_limit
      ∷ dimension_of "quality" w.quality s.quality
      ∷ dimension_of "context" w.context s.context
      ∷ dimension_of "freshness" w.freshness s.freshness
      ∷ dimension_of "cost" w.cost s.cost
      ∷ dimension_of "stability" w.stability s.stability
      ∷ dimension_of "firstTokenLatency" w.first_token_latency s.first_token_latency
      ∷ []

  -- `composite += d.contribution`, in order.
  unfoldable pub add_contributions : F → List ScoreDimension → F
  add_contributions total [] = total
  add_contributions total (d ∷ ds) = add_contributions (add total d.contribution) ds

  abbrev pub join_dominant : List ScoreDimension → String
  join_dominant [] = ""
  join_dominant (d ∷ []) =
      d.dimension ++ (" (" ++ (to_fixed (mul d.contribution (lit 100 1)) 0 ++ "%)"))
  join_dominant (d ∷ ds) =
      d.dimension
      ++ (" (" ++ (to_fixed (mul d.contribution (lit 100 1)) 0 ++ ("%), " ++ join_dominant ds)))

  unfoldable pub summary_of : F → List ScoreDimension → String
  summary_of composite dims =
      elim (take 3 (
        sort_by (λ (a b : ScoreDimension). less b.contribution a.contribution)
          (filter (λ (d : ScoreDimension). less (lit 0 1) d.contribution) dims))) [
            | [] ↦ to_fixed composite 2 ++ " (no dimension contributed)"
            | d ∷ ds ↦ to_fixed composite 2 ++ (" driven by " ++ join_dominant (d ∷ ds))
          ]

  -- The operator's nudge, held to -1..1.
  unfoldable pub weight_adj_of : ScoreInput → F
  weight_adj_of input =
      max_of N (neg (lit 1 1)) (min_of N (lit 1 1) (or_else input.weight_adj (lit 0 1)))

  -- The composite before the blacklist's veto.
  unfoldable pub composite_of : ScoreInput → Dimensions F → F
  composite_of input w =
      let weighted = add_contributions (lit 0 1) (dims_of w input.scores) in
      let nudged = add weighted (mul (weight_adj_of input) (lit 1 10)) in
      let found =
        if input.is_free && equal w.cost (lit 0 1) then add nudged (lit 2 100) else nudged in
      clamp01 N (add found (if input.whitelisted then lit 5 100 else lit 0 1))

  unfoldable pub score_model : ScoreInput → Option (Dimensions (Option F)) → ScoreExplanation
  score_model input weights = record {
    model_id = input.model_id;
    upstream_id = input.upstream_id;
    provider_slug = input.provider_slug;
    composite = composite;
    weight_adj = weight_adj_of input;
    blacklist_penalty = if input.blacklisted then allowed else lit 0 1;
    whitelist_bonus = if input.whitelisted then lit 5 100 else lit 0 1;
    dimensions = dims;
    summary = summary_of composite dims;
  }
    where
      w : Dimensions F
      w = spread_weights weights

      dims : List ScoreDimension
      dims = dims_of w input.scores

      allowed : F
      allowed = composite_of input w

      composite : F
      composite = if input.blacklisted then lit 0 1 else allowed
