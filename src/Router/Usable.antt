-- ===== src/Router/Usable.antt =====
-- What a request may use of the pool, and that the filters of `decide` refuse the rest.
use mathlib.Core.List.{Mem, mem-cons_self, mem-cons_of_mem}
use freellm_gateway.Base.{
  ◌≤◌, Bool, true, false, Option, none, some, List, [], ◌∷◌, ◌≡◌, ◌≢◌, ◌⊎◌, eq_string, eq_nat,
  or_else, All, arith,
}
use freellm_gateway.Status.{disabled, removed, paid_now, status_eq}
use freellm_gateway.Router.{
  RoutingMode, PoolModel, Permissions, RequiredCapabilities, RouteRequestContext, refusal,
  is_paid_allowed, allows_paid, not_in, is_in, passes_status, passes_capability_filter,
  passes_virtual_key,
}

module _ {F : Type 0} where
  -- What a virtual key allows.
  abbrev pub Permitted : Option Permissions → PoolModel F → Type 0
  Permitted none m = Unit
  Permitted (some p) m =
      (not_in p.allowed_models m.upstream_id ≡ false)
      × (is_in p.denied_models m.upstream_id ≡ false)
      × (not_in p.allowed_providers m.provider_slug ≡ false)
      × ((p.allow_paid_models ≡ true) ⊎ (m.is_free ≡ true))

  abbrev pub Capable : Option RequiredCapabilities → PoolModel F → Type 0
  Capable none m = Unit
  Capable (some r) m =
      ((r.stream ≢ some true) ⊎ (m.capabilities.stream ≡ true))
      × ((r.json ≢ some true) ⊎ (m.capabilities.json ≡ true))
      × ((r.tools ≢ some true) ⊎ (m.capabilities.tools ≡ true))
      × ((r.vision ≢ some true) ⊎ (m.capabilities.vision ≡ true))
      × ((r.audio ≢ some true) ⊎ (m.capabilities.audio ≡ true))
      × (or_else r.min_context_length 0 ≤ m.context_length)

  pub record IsUsable (ctx : RouteRequestContext F) (m : PoolModel F) : Type 0 where
    pub live : (m.status ≢ disabled) × (m.status ≢ removed)
    pub unpaid : (allows_paid ctx ≡ true) ⊎ (m.status ≢ paid_now)
    pub not_blacklisted : m.blacklisted ≡ false
    pub capable : Capable ctx.require_capabilities m
    pub permitted : Permitted ctx.permissions m

  pub passes_capability_filter-Capable :
      (m : PoolModel F) (r : Option RequiredCapabilities)
      → passes_capability_filter m r ≡ true
      → Capable r m
  unfolding passes_capability_filter
  passes_capability_filter-Capable m none h = tt
  passes_capability_filter-Capable m (some r) h = ground arith

  passes_virtual_key-Permitted :
      (m : PoolModel F) (p : Option Permissions) → passes_virtual_key m p ≡ true → Permitted p m
  unfolding passes_virtual_key
  passes_virtual_key-Permitted m none h = tt
  passes_virtual_key-Permitted m (some p) h = ground arith

  status_of :
      (m : PoolModel F) (mode : RoutingMode) (allow : Bool)
      → passes_status m mode allow ≡ true
      → ((m.status ≢ disabled) × (m.status ≢ removed))
        × ((allow ≡ true) ⊎ (is_paid_allowed mode ≡ true) ⊎ (m.status ≢ paid_now))
  unfolding passes_status
  status_of m mode allow h = ground arith

  refusal_parts :
      (ctx : RouteRequestContext F) (m : PoolModel F)
      → refusal ctx m ≡ none
      → (passes_status m ctx.policy.mode (allows_paid ctx) ≡ true)
        × (passes_capability_filter m ctx.require_capabilities ≡ true)
        × (passes_virtual_key m ctx.permissions ≡ true)
        × (m.blacklisted ≡ false)
  unfolding refusal
  refusal_parts ctx m h = ground arith

  pub refusal-IsUsable :
      (ctx : RouteRequestContext F) (m : PoolModel F) → refusal ctx m ≡ none → IsUsable ctx m
  refusal-IsUsable ctx m h =
      let (status, cap, key, black) = refusal_parts ctx m h in
      let (live, unpaid) = status_of m ctx.policy.mode (allows_paid ctx) status in
      record {
        live = live;
        unpaid = ground arith;
        not_blacklisted = black;
        capable = passes_capability_filter-Capable m ctx.require_capabilities cap;
        permitted = passes_virtual_key-Permitted m ctx.permissions key;
      }

  pub All-Mem : (pool : List (PoolModel F)) → All (λ m. Mem m pool) pool
  All-Mem pool = go pool (λ m h. h)
    where
      go :
          (ms : List (PoolModel F))
          → ((m : PoolModel F) → Mem m ms → Mem m pool)
          → All (λ m. Mem m pool) ms
      go [] h = tt
      go (m ∷ ms) h = (h m mem-cons_self, go ms (λ q k. h q (mem-cons_of_mem m k)))
