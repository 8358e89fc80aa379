-- ===== src/Router/Order.antt =====
-- `Router.orderForMode` and `hash`. A draw of `Math.random()` is a parameter: `draws n` is draw n.
use Prim.Native.Nat.{bit_xor}
use freellm_gateway.Base.{
  ℕ, zero, suc, ◌+◌, ◌-◌, ◌*◌, ◌/◌, ◌%◌, ◌^◌, String, not, ◌&&◌, some, List, [], ◌∷◌, map, ◌==◌,
  eq_string, eq_nat, if◌then◌else◌, or_else, ltb, filter, length,
}
use freellm_gateway.Base.Sort.{sort_by}
use freellm_gateway.Number.{Number, max_of, at_most}
use freellm_gateway.Scorer.{ScoreInput, score_model}
use freellm_gateway.Classify.Regex.{units}
use freellm_gateway.Router.{
  RoutingMode, round_robin_free, weighted_free, openrouter_free_router, provider_specific,
  PoolModel, RouteRequestContext,
}

-- The nearest multiple of q, and the even one of two as near.
abbrev round_to : ℕ → ℕ → ℕ
round_to q n =
    let below = n / q in
    let over = n % q in
    if ltb (2 * over) q
    then below * q
    else if ltb q (2 * over)
    then (below + 1) * q
    else (below + below % 2) * q

-- The double nearest to a product below 2 ^ 57.
unfoldable pub round_double : ℕ → ℕ
round_double n =
    if ltb n (2 ^ 53)
    then n
    else if ltb n (2 ^ 54)
    then round_to 2 n
    else if ltb n (2 ^ 55)
    then round_to 4 n
    else if ltb n (2 ^ 56)
    then round_to 8 n
    else round_to 16 n

-- `h ^= c; h = (h * 16777619) >>> 0`: the exclusive or is a signed 32-bit number, the product a
-- double, and `>>> 0` its remainder modulo 2 ^ 32.
unfoldable pub hash_step : ℕ → ℕ → ℕ
unfolding round_double
hash_step h c =
    let mixed = bit_xor h c in
    if ltb mixed (2 ^ 31)
    then round_double (mixed * 16777619) % 2 ^ 32
    else (2 ^ 32 - round_double ((2 ^ 32 - mixed) * 16777619) % 2 ^ 32) % 2 ^ 32

unfoldable pub hash_from : ℕ → List ℕ → ℕ
hash_from h [] = h
hash_from h (c ∷ cs) = hash_from (hash_step h c) cs

unfoldable pub hash : String → ℕ
hash s = hash_from 2166136261 (units s)

module _ (N : Number) where
  open N use {F, lit, add, sub, less}

  -- `toScoreInput`
  abbrev pub to_score_input : PoolModel F → ScoreInput N
  to_score_input m = record {
    model_id = m.model_id;
    upstream_id = m.upstream_id;
    provider_slug = m.provider_slug;
    scores = m.scores;
    weight_adj = some m.weight_adj;
    blacklisted = m.blacklisted;
    whitelisted = m.whitelisted;
    capabilities = m.capabilities;
    context_length = m.context_length;
    is_free = m.is_free;
  }

  -- The composite that the order and the candidate list show for a model.
  unfoldable pub composite : RouteRequestContext F → PoolModel F → F
  composite ctx m = (score_model N (to_score_input m) ctx.policy.weights).composite

  -- The pool with its composites, best first.
  unfoldable pub scored : RouteRequestContext F → List (PoolModel F) → List (PoolModel F × F)
  scored ctx pool =
      sort_by (λ (a b : PoolModel F × F). less b.1 a.1) (map (λ m. (m, composite ctx m)) pool)

  abbrev pub models_of : List (PoolModel F × F) → List (PoolModel F)
  models_of = map (λ x. x.0)

  -- `Math.max(0.01, x.s)`
  abbrev pub share : PoolModel F × F → F
  share x = max_of N (lit 1 100) x.1

  -- `bag.reduce`
  unfoldable pub total_from : F → List (PoolModel F × F) → F
  total_from acc [] = acc
  total_from acc (x ∷ bag) = total_from (add acc (share x)) bag

  -- The inner loop: the first entry at which r falls to 0, or else `picked`.
  unfoldable pub pick : F → PoolModel F × F → List (PoolModel F × F) → PoolModel F × F
  pick r picked [] = picked
  pick r picked (x ∷ bag) =
      let r' = sub r (share x) in
      let rest = pick r' picked bag in if at_most N r' (lit 0 1) then x else rest

  -- The outer loop, of at most `rounds` rounds; n counts the draws. An entry that is picked takes
  -- every entry of its upstream id out of the bag.
  unfoldable pub draw_all : (ℕ → F) → F → ℕ → ℕ → List (PoolModel F × F) → List (PoolModel F)
  draw_all draws total zero n bag = []
  draw_all draws total (suc rounds) n [] = []
  draw_all draws total (suc rounds) n (x ∷ bag) =
      let picked = pick (N.mul (draws n) total) x (x ∷ bag) in
      picked.0
      ∷ draw_all draws total rounds (suc n)
          (filter (λ y. not (y.0.upstream_id == picked.0.upstream_id)) (x ∷ bag))

  -- The `switch` over the mode.
  unfoldable pub order_by :
      RoutingMode → (ℕ → F) → RouteRequestContext F → List (PoolModel F) → List (PoolModel F)
  order_by round_robin_free draws ctx pool =
      sort_by (λ (a b : PoolModel F). ltb (hash a.upstream_id) (hash b.upstream_id)) pool
  order_by weighted_free draws ctx pool =
      draw_all draws (total_from (lit 0 1) (scored ctx pool)) (length pool) 0 (scored ctx pool)
  order_by openrouter_free_router draws ctx pool =
      filter (λ m. (m.provider_slug == "openrouter") && (m.upstream_id == "openrouter/free"))
        (models_of (scored ctx pool))
  order_by provider_specific draws ctx pool =
      let slug = or_else ctx.policy.provider_slug "" in
      if slug == ""
      then models_of (scored ctx pool)
      else models_of (filter (λ (x : PoolModel F × F). x.0.provider_slug == slug) (scored ctx pool))
  order_by _ draws ctx pool = models_of (scored ctx pool)

  unfoldable pub order_for_mode :
      (ℕ → F) → RouteRequestContext F → List (PoolModel F) → List (PoolModel F)
  order_for_mode draws ctx pool = order_by ctx.policy.mode draws ctx pool
