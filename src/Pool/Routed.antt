-- ===== src/Pool/Routed.antt =====
-- The router over a pool that was built from the table.
use freellm_gateway.Router.Kept.{
  Aliased, alias_filtered-All, survivors-All, ranked-All, candidates-All,
}
use freellm_gateway.Base.{
  ℕ, suc, Bool, Option, none, List, [], ◌∷◌, filter, ◌≡◌, refl, All, All-take, IsIn, Bool-cases,
  inl, inr,
}
use freellm_gateway.Number.{Number}
use freellm_gateway.Status.{status_eq}
use freellm_gateway.Scorer.{Capabilities}
use freellm_gateway.Router.{PoolModel, RouteRequestContext, refusal}
use freellm_gateway.Router.Decide.{Candidate, decide}
use freellm_gateway.Router.Usable.{IsUsable, refusal-IsUsable}
use freellm_gateway.Router.Safety.{All-imp}
use freellm_gateway.Pool.{PoolRow, pool_model, is_selected, place_from, build_pool}

-- Membership of a list that was selected from.
IsIn-filter : {A : Type 0} (p : A → Bool) (xs : List A) → All (λ a. IsIn a xs) (filter p xs)
IsIn-filter p [] = tt
IsIn-filter p (x ∷ xs) = elim (Bool-cases (p x)) [
  | inl e ↦ rw (e, filter) (inl refl, further _ (IsIn-filter p xs))
  | inr e ↦ rw (e, filter) (further _ (IsIn-filter p xs))
]
  where
    further : (ys : List _) → All (λ a. IsIn a xs) ys → All (λ a. IsIn a (x ∷ xs)) ys
    further [] h = tt
    further (y ∷ ys) h = (inr h.0, further ys h.1)

module _ (N : Number) {Json : Type 0} (parse : Json → Option Capabilities) where
  open N use {F}

  -- A candidate's model is built from a row of the table, and the request may use it.
  pub record IsRouted (ctx : RouteRequestContext F) (rows : List (PoolRow F Json)) (m : PoolModel F)
      : Type 0 where
    pub row : PoolRow F Json
    pub place : ℕ
    pub listed : IsIn row rows
    pub built : m ≡ pool_model N parse place row
    pub aliased : Aliased N ctx.alias m
    pub usable : IsUsable ctx m

  abbrev Source : List (PoolRow F Json) → PoolModel F → Type 0
  Source rows m =
      (row : PoolRow F Json) × (place : ℕ) × IsIn row rows × (m ≡ pool_model N parse place row)

  place_from-Source :
      (rows chosen : List (PoolRow F Json)) (place : ℕ)
      → All (λ r. IsIn r rows) chosen
      → All (Source rows) (place_from N parse place chosen)
  unfolding place_from
  place_from-Source rows [] place h = tt
  place_from-Source rows (r ∷ rs) place h =
      ((r, place, h.0, refl), place_from-Source rows rs (suc place) h.1)

  build_pool-Source : (rows : List (PoolRow F Json)) → All (Source rows) (build_pool N parse rows)
  unfolding build_pool
  build_pool-Source rows =
      place_from-Source rows _ 0
        (All-take (λ r. IsIn r rows) 800 _ (IsIn-filter (is_selected N parse) rows))

  -- Whatever the draws are, each candidate of a decision over the pool of a table is built from a
  -- row of that table, from its columns as they are, fits the alias, and is one that the request may use: not
  -- disabled, removed or blacklisted, not newly paid unless paid models are allowed, capable, and
  -- permitted by the virtual key.
  decide-build_pool :
      (draws : ℕ → F) (rows : List (PoolRow F Json)) (ctx : RouteRequestContext F)
      → All
          (λ (c : Candidate N). IsRouted ctx rows c.model)
          (decide N draws (build_pool N parse rows) ctx).candidates
  unfolding decide
  decide-build_pool draws rows ctx = candidates-All N (IsRouted ctx rows) ctx _ (
      All-take (IsRouted ctx rows) ctx.max_candidates _ (
        ranked-All N (IsRouted ctx rows) draws ctx _ (
          All-imp N (λ m. (Source rows m × Aliased N ctx.alias m) × (refusal ctx m ≡ none))
            (IsRouted ctx rows) _
            (λ m h. record {
              row = h.0.0.0;
              place = h.0.0.1;
              listed = h.0.0.2;
              built = h.0.0.3;
              aliased = h.0.1;
              usable = refusal-IsUsable ctx m h.1;
            })
            (survivors-All N (λ m. Source rows m × Aliased N ctx.alias m) ctx _
              (alias_filtered-All N (Source rows) ctx _ (build_pool-Source rows))))))
