-- ===== src/Router/Kept.antt =====
-- What the filters and the orders keep holds of the models that they hand on.
use freellm_gateway.Base.{
  ℕ, zero, suc, String, Bool, true, not, ◌&&◌, Option, none, some, List, [], ◌∷◌, map, ◌≡◌, refl,
  subst, inl, inr, ◌==◌, eq_string, eq_nat, or_else, filter, find, length, All, All-filter, arith,
  Option-cases, Bool-cases,
}
use freellm_gateway.Base.Sort.{sort_by-All}
use freellm_gateway.Number.{Number}
use freellm_gateway.Status.{status_eq}
use freellm_gateway.Router.{
  RoutingMode, round_robin_free, weighted_free, openrouter_free_router, prefer_model_fallback,
  provider_specific, PoolModel, RouteRequestContext, alias_handler, refusal,
}
use freellm_gateway.Router.Order.{
  scored, models_of, pick, draw_all, order_by, order_for_mode, share, composite,
}
use freellm_gateway.Router.Decide.{
  Candidate, keep_by, alias_filtered, survivors, pin_found, pin_explicit, pin_provider, ranked,
  candidate_of,
}

module _ (N : Number) where
  open N use {F, lit}

  abbrev pub KeptBy : Option (PoolModel F → Bool) → PoolModel F → Type 0
  KeptBy none m = Unit
  KeptBy (some keep) m = keep m ≡ true

  -- What an alias asks of a model.
  abbrev pub Aliased : Option String → PoolModel F → Type 0
  Aliased none m = Unit
  Aliased (some a) m = KeptBy (alias_handler N a) m

  filter-All :
      (P : PoolModel F → Type 0) (p : PoolModel F → Bool) (ms : List (PoolModel F))
      → All P ms
      → All (λ m. P m × (p m ≡ true)) (filter p ms)
  filter-All P p [] h = tt
  filter-All P p (m ∷ ms) h = ground (arith, filter-All P p ms h.1)

  unit-All :
      (P : PoolModel F → Type 0) (ms : List (PoolModel F)) → All P ms → All (λ m. P m × Unit {0}) ms
  unit-All P [] k = tt
  unit-All P (m ∷ ms) k = ((k.0, tt), unit-All P ms k.1)

  pub keep_by-All :
      (P : PoolModel F → Type 0) (o : Option (PoolModel F → Bool)) (pool : List (PoolModel F))
      → All P pool
      → All (λ m. P m × KeptBy o m) (keep_by N o pool)
  keep_by-All P none pool h = unit-All P pool h
  keep_by-All P (some keep) pool h = filter-All P keep pool h

  pub alias_filtered-All :
      (P : PoolModel F → Type 0) (ctx : RouteRequestContext F) (pool : List (PoolModel F))
      → All P pool
      → All (λ m. P m × Aliased ctx.alias m) (alias_filtered N ctx pool)
  unfolding alias_filtered
  alias_filtered-All P ctx pool h = elim (Option-cases ctx.alias) [
    | inl e ↦ rw (e, alias_filtered) (unit-All P pool h)
    | inr (a, e) ↦ rw (e, alias_filtered) (keep_by-All P (alias_handler N a) pool h)
  ]

  pub survivors-All :
      (P : PoolModel F → Type 0) (ctx : RouteRequestContext F) (ms : List (PoolModel F))
      → All P ms
      → All (λ m. P m × (refusal ctx m ≡ none)) (survivors N ctx ms)
  unfolding survivors
  survivors-All P ctx [] h = tt
  survivors-All P ctx (m ∷ ms) h = elim (Option-cases (refusal ctx m)) [
    | inl e ↦ rw (e, survivors) ((h.0, e), survivors-All P ctx ms h.1)
    | inr (_, e) ↦ rw (e, survivors) (survivors-All P ctx ms h.1)
  ]

  module _ (P : PoolModel F → Type 0) where
    abbrev P₀ : PoolModel F × F → Type 0
    P₀ x = P x.0

    pair-All :
        (ctx : RouteRequestContext F) (ms : List (PoolModel F))
        → All P ms
        → All P₀ (map (λ m. (m, composite N ctx m)) ms)
    pair-All ctx [] h = tt
    pair-All ctx (m ∷ ms) h = (h.0, pair-All ctx ms h.1)

    scored-All :
        (ctx : RouteRequestContext F) (ms : List (PoolModel F))
        → All P ms
        → All P₀ (scored N ctx ms)
    unfolding scored
    scored-All ctx ms h = sort_by-All _ P₀ _ (pair-All ctx ms h)

    models_of-All : (xs : List (PoolModel F × F)) → All P₀ xs → All P (models_of N xs)
    models_of-All [] h = tt
    models_of-All (x ∷ xs) h = (h.0, models_of-All xs h.1)

    pick-All :
        (r : F) (picked : PoolModel F × F) (bag : List (PoolModel F × F))
        → P picked.0
        → All P₀ bag
        → P (pick N r picked bag).0
    unfolding pick
    pick-All r picked [] p h = p
    pick-All r picked (x ∷ bag) p h =
        ground (arith, pick-All (N.sub r (share N x)) picked bag p h.1)

    draw_all-All :
        (draws : ℕ → F) (total : F) (rounds n : ℕ) (bag : List (PoolModel F × F))
        → All P₀ bag
        → All P (draw_all N draws total rounds n bag)
    unfolding draw_all
    draw_all-All draws total zero n bag h = tt
    draw_all-All draws total (suc rounds) n [] h = tt
    draw_all-All draws total (suc rounds) n (x ∷ bag) h = (
      pick-All _ x (x ∷ bag) h.0 h,
      draw_all-All draws total rounds (suc n) _ (
          All-filter P₀
            (λ y.
              not (y.0.upstream_id == (pick N (N.mul (draws n) total) x (x ∷ bag)).0.upstream_id))
            (x ∷ bag) h),
    )

    order_by-All :
        (mode : RoutingMode) (draws : ℕ → F) (ctx : RouteRequestContext F) (ms : List (PoolModel F))
        → All P ms
        → All P (order_by N mode draws ctx ms)
    unfolding order_by
    order_by-All round_robin_free draws ctx ms h = sort_by-All _ P ms h
    order_by-All weighted_free draws ctx ms h =
        draw_all-All draws _ (length ms) 0 _ (scored-All ctx ms h)
    order_by-All openrouter_free_router draws ctx ms h =
        All-filter P
          (λ m. (m.provider_slug == "openrouter") && (m.upstream_id == "openrouter/free")) _
          (models_of-All _ (scored-All ctx ms h))
    order_by-All provider_specific draws ctx ms h =
        elim (Bool-cases (or_else ctx.policy.provider_slug "" == "")) [
          | inl e ↦ rw e (models_of-All _ (scored-All ctx ms h))
          | inr e ↦ rw e (
              models_of-All _ (
                All-filter P₀ (λ x. x.0.provider_slug == or_else ctx.policy.provider_slug "") _
                  (scored-All ctx ms h)))
        ]
    order_by-All _ draws ctx ms h = models_of-All _ (scored-All ctx ms h)

    find-All :
        (p : PoolModel F → Bool) (ms : List (PoolModel F)) (m : PoolModel F)
        → All P ms
        → find p ms ≡ some m
        → P m
    find-All p [] m h e = absurd (cc)
    find-All p (x ∷ ms) m h e = elim (Bool-cases (p x)) [
      | inl hit ↦ subst P (ground arith) h.0
      | inr missed ↦ find-All p ms m h.1 (ground arith)
    ]

    pin_found-All :
        (o : Option (PoolModel F)) (ms alive : List (PoolModel F)) (p : PoolModel F → Bool)
        → find p alive ≡ o
        → All P alive
        → All P ms
        → All P (pin_found N o ms)
    unfolding pin_found
    pin_found-All none ms alive p e k h = h
    pin_found-All (some m) ms alive p e k h =
        (find-All p alive m k e, All-filter P (λ q. not (q.ref == m.ref)) ms h)

    pin_explicit-All :
        (mode : RoutingMode) (ctx : RouteRequestContext F) (alive ms : List (PoolModel F))
        → All P alive
        → All P ms
        → All P (pin_explicit N mode ctx alive ms)
    unfolding pin_explicit
    pin_explicit-All prefer_model_fallback ctx alive ms k h =
        elim (Bool-cases (or_else ctx.explicit_model "" == "")) [
          | inl e ↦ rw e h
          | inr e ↦ rw e (
              pin_found-All _ ms alive (λ m. m.upstream_id == or_else ctx.explicit_model "") refl k
                h)
        ]
    pin_explicit-All _ ctx alive ms k h = h

    pin_provider-All :
        (mode : RoutingMode) (slug : Option String) (ms : List (PoolModel F))
        → All P ms
        → All P (pin_provider N mode slug ms)
    unfolding pin_provider
    pin_provider-All provider_specific (some slug) ms h =
        All-filter P (λ m. m.provider_slug == slug) ms h
    pin_provider-All _ _ ms h = h

    pub ranked-All :
        (draws : ℕ → F) (ctx : RouteRequestContext F) (ms : List (PoolModel F))
        → All P ms
        → All P (ranked N draws ctx ms)
    unfolding ranked order_for_mode
    ranked-All draws ctx ms h =
        pin_provider-All _ _ _ (pin_explicit-All _ ctx ms _ h (order_by-All _ draws ctx ms h))

    pub candidates-All :
        (ctx : RouteRequestContext F) (ms : List (PoolModel F))
        → All P ms
        → All (λ (c : Candidate N). P c.model) (map (candidate_of N ctx) ms)
    candidates-All ctx [] h = tt
    candidates-All ctx (m ∷ ms) h = (h.0, candidates-All ctx ms h.1)
