-- ===== src/Scorer/Sample.antt =====
-- `applyScoreSample` and `ewmaUpdate` of packages/routing-core/src/scorer.ts: what an attempt does to
-- a model's stored scores, and the counts after many attempts.
use freellm_gateway.Base.{
  ℕ, ◌+◌, max, String, Bool, not, Option, none, some, List, [], ◌∷◌, ◌≡◌, arith, if◌then◌else◌,
  ◌==◌, eq_string, or_else, filter, length,
}
use freellm_gateway.Number.{Number, clamp01}

pub record ScoreSampleInput : Type 0 where
  pub ok : Bool
  pub duration_ms : ℕ
  pub first_token_ms : Option ℕ
  pub kind : Option String

-- `sample.kind === 'rate_limited'`
abbrev pub is_rate_limited : ScoreSampleInput → Bool
is_rate_limited sample = or_else sample.kind "" == "rate_limited"

module _ (N : Number) where
  open N use {F, lit, add, sub, mul, div, round}

  pub record MutableScores : Type 0 where
    pub availability_score : F
    pub latency_score : F
    pub rate_limit_score : F
    pub stability_score : F
    pub success_count_24h : ℕ
    pub failure_count_24h : ℕ
    pub rate_limit_24h : ℕ
    pub avg_latency_ms : F
    pub first_token_latency_ms : F

  abbrev pub ewma_alpha : F
  ewma_alpha = lit 2 10

  unfoldable pub ewma_update : F → F → F → F
  ewma_update prev sample alpha = add (mul prev (sub (lit 1 1) alpha)) (mul sample alpha)

  unfoldable pub apply_score_sample : MutableScores → ScoreSampleInput → MutableScores
  apply_score_sample scores sample = record {
    availability_score =
        ewma_update scores.availability_score (if sample.ok then lit 1 1 else lit 0 1) (lit 1 10);
    latency_score =
        ewma_update scores.latency_score
          (clamp01 N (sub (lit 1 1) (div (lit sample.duration_ms 1) (lit 60000 1)))) ewma_alpha;
    rate_limit_score =
        if is_rate_limited sample
        then ewma_update scores.rate_limit_score (lit 0 1) ewma_alpha
        else if sample.ok
        then ewma_update scores.rate_limit_score (lit 1 1) ewma_alpha
        else scores.rate_limit_score;
    stability_score = ewma_update scores.stability_score success_rate ewma_alpha;
    success_count_24h = successes;
    failure_count_24h = failures;
    rate_limit_24h =
        if is_rate_limited sample then scores.rate_limit_24h + 1 else scores.rate_limit_24h;
    avg_latency_ms =
        round (ewma_update scores.avg_latency_ms (lit sample.duration_ms 1) ewma_alpha);
    first_token_latency_ms = elim sample.first_token_ms [
      | none ↦ scores.first_token_latency_ms
      | some ms ↦ round (ewma_update scores.first_token_latency_ms (lit ms 1) ewma_alpha)
    ];
  }
    where
      successes : ℕ
      successes = if sample.ok then scores.success_count_24h + 1 else scores.success_count_24h

      failures : ℕ
      failures = if sample.ok then scores.failure_count_24h else scores.failure_count_24h + 1

      success_rate : F
      success_rate = div (lit successes 1) (lit (max 1 (successes + failures)) 1)

  unfoldable pub apply_all : MutableScores → List ScoreSampleInput → MutableScores
  apply_all scores [] = scores
  apply_all scores (s ∷ ss) = apply_all (apply_score_sample scores s) ss

  -- After any sequence of samples, each counter has grown by the number of samples that it counts:
  -- those that succeeded, those that failed, and those that were rate limited.
  pub apply_all-counts :
      (samples : List ScoreSampleInput) (scores : MutableScores)
      → ((apply_all scores samples).success_count_24h
          ≡ scores.success_count_24h + length (filter (λ s. s.ok) samples))
        × ((apply_all scores samples).failure_count_24h
            ≡ scores.failure_count_24h + length (filter (λ s. not s.ok) samples))
        × ((apply_all scores samples).rate_limit_24h
            ≡ scores.rate_limit_24h + length (filter is_rate_limited samples))
  unfolding apply_all apply_score_sample
  apply_all-counts [] scores = (omega arith, omega arith, omega arith)
  apply_all-counts (s ∷ ss) scores =
      let (ok, bad, limited) = apply_all-counts ss (apply_score_sample scores s) in
      (ground (arith, ok), ground (arith, bad), ground (arith, limited))
