-- ===== src/Router/Safety.antt =====
-- Every candidate that the router proposes is one that the request may use.
use mathlib.Core.List.{Mem}
use freellm_gateway.Base.{
  ℕ, suc, ◌≤◌, none, List, [], ◌∷◌, map, ◌≡◌, refl, ap, eq_string, eq_nat, take, length, All,
  All-take, length-take, arith,
}
use freellm_gateway.Number.{Number}
use freellm_gateway.Status.{status_eq}
use freellm_gateway.Router.{PoolModel, RouteRequestContext, refusal}
use freellm_gateway.Router.Usable.{IsUsable, refusal-IsUsable, All-Mem}
use freellm_gateway.Router.Kept.{
  Aliased, alias_filtered-All, survivors-All, ranked-All, candidates-All,
}
use freellm_gateway.Router.Decide.{
  Candidate, alias_filtered, survivors, ranked, candidate_of, decide,
}

module _ (N : Number) where
  open N use {F, lit}

  -- What is known of a candidate's model.
  pub record IsAdmissible (ctx : RouteRequestContext F) (pool : List (PoolModel F))
      (m : PoolModel F) : Type 0 where
    pub listed : Mem m pool
    pub aliased : Aliased N ctx.alias m
    pub usable : IsUsable ctx m

  pub All-imp :
      (P Q : PoolModel F → Type 0) (ms : List (PoolModel F))
      → ((m : PoolModel F) → P m → Q m)
      → All P ms
      → All Q ms
  All-imp P Q [] f h = tt
  All-imp P Q (m ∷ ms) f h = (f m h.0, All-imp P Q ms f h.1)

  survivors-IsAdmissible :
      (ctx : RouteRequestContext F) (pool : List (PoolModel F))
      → All (IsAdmissible ctx pool) (survivors N ctx (alias_filtered N ctx pool))
  survivors-IsAdmissible ctx pool =
      All-imp (λ m. (Mem m pool × Aliased N ctx.alias m) × (refusal ctx m ≡ none)) _ _
        (λ m h. record { listed = h.0.0; aliased = h.0.1; usable = refusal-IsUsable ctx m h.1 })
        (survivors-All N (λ m. Mem m pool × Aliased N ctx.alias m) ctx _
          (alias_filtered-All N (λ m. Mem m pool) ctx pool (All-Mem pool)))

  -- Whatever the mode, the scores and the random draws are, each candidate is a model of the pool,
  -- fits the alias, is neither disabled nor removed nor blacklisted, is not a model that became paid
  -- unless paid models are allowed, has each capability that is required and the context length, and
  -- is allowed by the virtual key: listed if the key lists models or providers, not denied, and free
  -- if the key allows no paid models.
  pub decide-IsAdmissible :
      (draws : ℕ → F) (pool : List (PoolModel F)) (ctx : RouteRequestContext F)
      → All
          (λ (c : Candidate N). IsAdmissible ctx pool c.model)
          (decide N draws pool ctx).candidates
  unfolding decide
  decide-IsAdmissible draws pool ctx = candidates-All N (IsAdmissible ctx pool) ctx _ (
      All-take (IsAdmissible ctx pool) ctx.max_candidates _
        (ranked-All N (IsAdmissible ctx pool) draws ctx _ (survivors-IsAdmissible ctx pool)))

  length-candidates :
      (ctx : RouteRequestContext F) (ms : List (PoolModel F))
      → length (map (candidate_of N ctx) ms) ≡ length ms
  length-candidates ctx [] = refl
  length-candidates ctx (m ∷ ms) = ap suc (length-candidates ctx ms)

  -- There are never more candidates than the request asks for.
  pub length-decide-le :
      (draws : ℕ → F) (pool : List (PoolModel F)) (ctx : RouteRequestContext F)
      → length (decide N draws pool ctx).candidates ≤ ctx.max_candidates
  unfolding decide
  length-decide-le draws pool ctx = omega (
    arith,
    length-candidates ctx (
        take ctx.max_candidates (ranked N draws ctx (survivors N ctx (alias_filtered N ctx pool)))),
    length-take ctx.max_candidates
        (ranked N draws ctx (survivors N ctx (alias_filtered N ctx pool))),
  )
