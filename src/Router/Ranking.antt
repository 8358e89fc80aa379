-- ===== src/Router/Ranking.antt =====
-- The order of the candidates: by composite in the automatic modes, and the pinned model first.
use freellm_gateway.Base.{
  ℕ, zero, suc, String, Bool, true, false, not, Option, some, List, [], ◌∷◌, map, ◌≡◌, refl, sym,
  inl, inr, ◌⊎◌, All, take, find, or_else, ◌==◌, eq_string, eq_nat, ap, ◌∙◌, subst, filter,
}
use freellm_gateway.Base.Sort.{InOrder, sort_by-InOrder, sort_by-All}
use freellm_gateway.Number.{Number}
use freellm_gateway.Scorer.Composite.{score_model-IsScore}
use freellm_gateway.Router.{
  RoutingMode, auto_best_free, paid_allowed, prefer_model_fallback, PoolModel, RouteRequestContext,
}
use freellm_gateway.Router.Order.{
  scored, models_of, composite, order_by, order_for_mode, to_score_input,
}
use freellm_gateway.Router.Decide.{
  Candidate, candidate_of, decide, ranked, survivors, alias_filtered, pin_explicit, pin_found,
  pin_provider,
}

module _ (N : Number) where
  open N use {F, less, is_finite}

  pinned :
      (mode : RoutingMode) (slug : Option String) (ctx : RouteRequestContext F)
      (alive ordered : List (PoolModel F)) (m : PoolModel F)
      → mode ≡ prefer_model_fallback
      → (or_else ctx.explicit_model "" == "") ≡ false
      → find (λ q. q.upstream_id == or_else ctx.explicit_model "") alive ≡ some m
      → pin_provider N mode slug (pin_explicit N mode ctx alive ordered)
        ≡ m ∷ filter (λ q. not (q.ref == m.ref)) ordered
  unfolding pin_explicit pin_found pin_provider
  pinned mode slug ctx alive ordered m e wanted found =
      rw (e, pin_explicit, pin_provider, wanted, found, pin_found) refl

  first_asked :
      (f : PoolModel F → Candidate N) (n k : ℕ) (m : PoolModel F) (ms : List (PoolModel F))
      → n ≡ suc k
      → take 1 (map f (take n (m ∷ ms))) ≡ f m ∷ []
  first_asked f n k m ms e = rw e refl

  -- In the mode that prefers an explicit model, the first model of that upstream id that passes the
  -- filters is the first candidate, provided that the request asks for any.
  pub decide-explicit :
      (draws : ℕ → F) (pool : List (PoolModel F)) (ctx : RouteRequestContext F) (m : PoolModel F)
      (k : ℕ)
      → ctx.policy.mode ≡ prefer_model_fallback
      → (or_else ctx.explicit_model "" == "") ≡ false
      → find
          (λ q. q.upstream_id == or_else ctx.explicit_model "")
          (survivors N ctx (alias_filtered N ctx pool))
        ≡ some m
      → ctx.max_candidates ≡ suc k
      → take 1 (decide N draws pool ctx).candidates ≡ candidate_of N ctx m ∷ []
  unfolding decide ranked
  decide-explicit draws pool ctx m k mode wanted found asked =
      ap (λ l. take 1 (map (candidate_of N ctx) (take ctx.max_candidates l)))
        (pinned ctx.policy.mode ctx.policy.provider_slug ctx _ _ m mode wanted found)
      ∙ first_asked (candidate_of N ctx) ctx.max_candidates k m _ asked

  unpinned :
      (mode : RoutingMode) (slug : Option String) (draws : ℕ → F) (ctx : RouteRequestContext F)
      (ms : List (PoolModel F))
      → (mode ≡ auto_best_free) ⊎ (mode ≡ paid_allowed)
      → pin_provider N mode slug (pin_explicit N mode ctx ms (order_by N mode draws ctx ms))
        ≡ models_of N (scored N ctx ms)
  unfolding order_by pin_explicit pin_provider
  unpinned mode slug draws ctx ms (inl e) = rw (e, order_by, pin_explicit, pin_provider) refl
  unpinned mode slug draws ctx ms (inr e) = rw (e, order_by, pin_explicit, pin_provider) refl

  module _ (ctx : RouteRequestContext F) where
    -- A scored entry has its model's composite, which is finite.
    abbrev Scored : PoolModel F × F → Type 0
    Scored x = (x.1 ≡ composite N ctx x.0) × (is_finite x.1 ≡ true)

    pairs-Scored : (ms : List (PoolModel F)) → All Scored (map (λ m. (m, composite N ctx m)) ms)
    unfolding composite
    pairs-Scored [] = tt
    pairs-Scored (m ∷ ms) = (
      (refl, (score_model-IsScore N (to_score_input N m) ctx.policy.weights).finite),
      pairs-Scored ms,
    )

    abbrev above : PoolModel F × F → PoolModel F × F → Bool
    above a b = less b.1 a.1

    scored-InOrder :
        (ms : List (PoolModel F)) → InOrder above (scored N ctx ms) × All Scored (scored N ctx ms)
    unfolding scored
    scored-InOrder ms = (
      sort_by-InOrder above Scored (λ a b h. N.less_asym b.1 a.1 h)
          (λ a b c p q r h k. N.less_cotrans c.1 b.1 a.1 r.1 q.1 p.1 k h) _ (pairs-Scored ms),
      sort_by-All above Scored _ (pairs-Scored ms),
    )

    abbrev pub better : Candidate N → Candidate N → Bool
    better d c = less c.score.composite d.score.composite

    abbrev listed : ℕ → List (PoolModel F × F) → List (Candidate N)
    listed n xs = map (candidate_of N ctx) (take n (models_of N xs))

    below :
        (x : PoolModel F × F) (n : ℕ) (xs : List (PoolModel F × F))
        → Scored x
        → All Scored xs
        → All (λ y. above y x ≡ false) xs
        → All (λ d. better d (candidate_of N ctx x.0) ≡ false) (listed n xs)
    unfolding composite
    below x zero xs p q h = tt
    below x (suc n) [] p q h = tt
    below x (suc n) (y ∷ xs) p q h = (rw (p.0, q.0.0) at h.0, below x n xs p q.1 h.1)

    listed-InOrder :
        (n : ℕ) (xs : List (PoolModel F × F))
        → All Scored xs
        → InOrder above xs
        → InOrder better (listed n xs)
    listed-InOrder zero xs p o = tt
    listed-InOrder (suc n) [] p o = tt
    listed-InOrder (suc n) (x ∷ xs) p o = (below x n xs p.0 p.1 o.0, listed-InOrder n xs p.1 o.1)

  -- In the modes that pick the best model, no candidate has a higher composite than one before it.
  pub decide-InOrder :
      (draws : ℕ → F) (pool : List (PoolModel F)) (ctx : RouteRequestContext F)
      → (ctx.policy.mode ≡ auto_best_free) ⊎ (ctx.policy.mode ≡ paid_allowed)
      → InOrder (better ctx) (decide N draws pool ctx).candidates
  unfolding decide ranked order_for_mode
  decide-InOrder draws pool ctx h =
      let alive = survivors N ctx (alias_filtered N ctx pool) in
      let (order, valid) = scored-InOrder ctx alive in
      subst (λ l. InOrder (better ctx) (map (candidate_of N ctx) (take ctx.max_candidates l)))
        (sym (unpinned ctx.policy.mode ctx.policy.provider_slug draws ctx alive h))
        (listed-InOrder ctx ctx.max_candidates _ valid order)
