-- ===== src/Scorer/Composite.antt =====
-- The range of the composite, and the veto of the blacklist.
use freellm_gateway.Base.{true, false, Option, ◌≡◌, inl, inr, Bool-cases}
use freellm_gateway.Number.{Number, IsScore, clamp01-IsScore, zero-IsScore}
use freellm_gateway.Scorer.{Dimensions, ScoreInput, score_model, composite_of, weight_adj_of}

module _ (N : Number) where
  open N use {F, lit}

  -- Whatever the weights, the scores and the nudge are, NaN and infinities included, the composite
  -- is a finite number from 0 to 1.
  pub score_model-IsScore :
      (input : ScoreInput N) (weights : Option (Dimensions (Option F)))
      → IsScore N (score_model N input weights).composite
  unfolding score_model composite_of
  score_model-IsScore input weights = elim (Bool-cases input.blacklisted) [
    | inl b ↦ rw b (zero-IsScore N)
    | inr b ↦ rw b (clamp01-IsScore N _)
  ]

  -- The composite of a blacklisted model is 0, whatever else is known of it, and the penalty shown
  -- is the composite that it would have if it were not blacklisted.
  pub score_model-blacklisted :
      (input : ScoreInput N) (weights : Option (Dimensions (Option F)))
      → input.blacklisted ≡ true
      → ((score_model N input weights).composite ≡ lit 0 1)
        × ((score_model N input weights).blacklist_penalty
            ≡ (score_model N (record input { blacklisted = false }) weights).composite)
  unfolding score_model composite_of weight_adj_of
  score_model-blacklisted input weights b = (simp b, simp b)
