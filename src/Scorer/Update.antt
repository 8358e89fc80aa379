-- ===== src/Scorer/Update.antt =====
-- `ScoreUpdaterService.recordAttempt` of apps/api/src/services/score-updater.service.ts: the stored
-- scores of a model after each attempt. The table of models is a function from ids, with the
-- capabilities parsed; the explanation is stored as itself in place of its JSON, and the read and
-- the upsert of an attempt are one step.
use freellm_gateway.Base.{
  ℕ, String, Bool, not, ◌||◌, Option, none, some, List, [], ◌∷◌, if◌then◌else◌, eq_string, or_else,
  is_some,
}
use freellm_gateway.Base.Dict.{lookup, insert}
use freellm_gateway.Number.{Number, max_of, min_of}
use freellm_gateway.Scorer.{
  Capabilities, Dimensions, ScoreInput, ScoreExplanation, full_weights, score_model,
}
use freellm_gateway.Scorer.Sample.{ScoreSampleInput, MutableScores, apply_score_sample}

module _ (N : Number) where
  open N use {F, lit, sub, div, equal}

  -- A row of `model_scores`.
  pub record ScoreRow : Type 0 where
    pub availability_score : F
    pub latency_score : F
    pub rate_limit_score : F
    pub quality_score : F
    pub context_score : F
    pub capability_score : F
    pub freshness_score : F
    pub cost_score : F
    pub stability_score : F
    pub first_token_latency_ms : Option F
    pub avg_latency_ms : Option F
    pub success_count_24h : ℕ
    pub failure_count_24h : ℕ
    pub rate_limit_24h : ℕ
    pub composite : F
    pub explanation : Option (ScoreExplanation N)

  -- The columns of a model that are read.
  pub record ModelColumns : Type 0 where
    pub upstream_id : String
    pub provider_slug : String
    pub capabilities : Capabilities
    pub context_length : ℕ
    pub is_free : Bool
    pub blacklisted : Bool
    pub whitelisted : Bool
    pub weight_adj : F

  -- The values in place of a missing row, which are the defaults of the table too.
  abbrev pub seed_row : ScoreRow
  seed_row = record {
    availability_score = lit 5 10;
    latency_score = lit 5 10;
    rate_limit_score = lit 5 10;
    quality_score = lit 5 10;
    context_score = lit 5 10;
    capability_score = lit 5 10;
    freshness_score = lit 5 10;
    cost_score = lit 1 1;
    stability_score = lit 5 10;
    first_token_latency_ms = none;
    avg_latency_ms = none;
    success_count_24h = 0;
    failure_count_24h = 0;
    rate_limit_24h = 0;
    composite = lit 0 1;
    explanation = none;
  }

  -- `!ms`: zero or NaN, which differs from itself.
  abbrev pub is_falsy : F → Bool
  is_falsy ms = equal ms (lit 0 1) || not (equal ms ms)

  -- `ms || null`
  abbrev pub or_null : F → Option F
  or_null ms = if is_falsy ms then none else some ms

  unfoldable pub clamp_latency_score : F → F
  clamp_latency_score ms =
      if is_falsy ms
      then lit 5 10
      else max_of N (lit 0 1) (min_of N (lit 1 1) (sub (lit 1 1) (div ms (lit 60000 1))))

  abbrev pub mutable_scores : ScoreRow → MutableScores N
  mutable_scores seed = record {
    availability_score = seed.availability_score;
    latency_score = seed.latency_score;
    rate_limit_score = seed.rate_limit_score;
    stability_score = seed.stability_score;
    success_count_24h = seed.success_count_24h;
    failure_count_24h = seed.failure_count_24h;
    rate_limit_24h = seed.rate_limit_24h;
    avg_latency_ms = or_else seed.avg_latency_ms (lit 0 1);
    first_token_latency_ms = or_else seed.first_token_latency_ms (lit 0 1);
  }

  abbrev pub score_input : String → ModelColumns → ScoreRow → MutableScores N → ScoreInput N
  score_input id m seed updated = record {
    model_id = id;
    upstream_id = m.upstream_id;
    provider_slug = m.provider_slug;
    scores = record {
      availability = updated.availability_score;
      latency = updated.latency_score;
      rate_limit = updated.rate_limit_score;
      quality = seed.quality_score;
      context = seed.context_score;
      freshness = seed.freshness_score;
      cost = seed.cost_score;
      stability = updated.stability_score;
      first_token_latency = clamp_latency_score updated.first_token_latency_ms;
    };
    weight_adj = some m.weight_adj;
    blacklisted = m.blacklisted;
    whitelisted = m.whitelisted;
    capabilities = m.capabilities;
    context_length = m.context_length;
    is_free = m.is_free;
  }

  -- `weights: FULL_WEIGHTS_WITH_FIRST_TOKEN`
  abbrev pub all_weights : Dimensions (Option F)
  all_weights = record {
    availability = some (full_weights N).availability;
    latency = some (full_weights N).latency;
    rate_limit = some (full_weights N).rate_limit;
    quality = some (full_weights N).quality;
    context = some (full_weights N).context;
    freshness = some (full_weights N).freshness;
    cost = some (full_weights N).cost;
    stability = some (full_weights N).stability;
    first_token_latency = some (full_weights N).first_token_latency;
  }

  -- The row that the upsert leaves, from the row that it finds.
  unfoldable pub written : String → ModelColumns → ScoreSampleInput → Option ScoreRow → ScoreRow
  written id m sample existing =
      let seed = or_else existing seed_row in
      let updated = apply_score_sample N (mutable_scores seed) sample in
      let found = score_model N (score_input id m seed updated) (some all_weights) in
      record seed {
        availability_score = updated.availability_score;
        latency_score = updated.latency_score;
        rate_limit_score = updated.rate_limit_score;
        stability_score = updated.stability_score;
        success_count_24h = updated.success_count_24h;
        failure_count_24h = updated.failure_count_24h;
        rate_limit_24h = updated.rate_limit_24h;
        avg_latency_ms = or_null updated.avg_latency_ms;
        first_token_latency_ms = or_null updated.first_token_latency_ms;
        cost_score =
            if is_some existing then seed.cost_score else if m.is_free then lit 1 1 else lit 0 1;
        composite = found.composite;
        explanation = some found;
      }

  module _ (find_model : String → Option ModelColumns) where
    unfoldable pub record_attempt :
        String → ScoreSampleInput → List (String × ScoreRow) → List (String × ScoreRow)
    record_attempt id sample table = elim (find_model id) [
      | none ↦ table
      | some m ↦ insert id (written id m sample (lookup id table)) table
    ]

    unfoldable pub record_all :
        List (String × ScoreSampleInput) → List (String × ScoreRow) → List (String × ScoreRow)
    record_all [] table = table
    record_all ((id, sample) ∷ rest) table = record_all rest (record_attempt id sample table)
