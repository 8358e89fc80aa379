-- ===== src/Router.antt =====
-- packages/routing-core/src/router.ts: the pool, the request's context and the filters of
-- `Router.decide`. Order has the orders of the modes, Decide the decision; Usable, Kept, Safety and
-- Ranking are proofs. `ref` is the identity of a pool entry, by which `includes` and `!==` compare.
pub mod Order
pub mod Decide
pub mod Usable
pub mod Kept
pub mod Safety
pub mod Ranking
use Prim.Native.String.{◌++◌}
use freellm_gateway.Base.{
  ℕ, String, Bool, true, false, not, ◌&&◌, ◌||◌, Option, none, some, List, [], ◌∷◌, map, ◌==◌,
  eq_nat, eq_string, if◌then◌else◌, or_else, ltb, leb, length, contains,
}
use freellm_gateway.Number.{Number, at_most}
use freellm_gateway.Scorer.{Capabilities, Dimensions}
use freellm_gateway.Status.{
  ModelStatus, active, degraded, rate_limited, disabled, removed, paid_now, status_eq,
}

-- `RoutingMode` of packages/shared/src/types.ts.
pub data RoutingMode : Type 0 where
  auto_best_free round_robin_free weighted_free openrouter_free_router : RoutingMode
  prefer_model_fallback provider_specific paid_allowed : RoutingMode

abbrev pub is_paid_allowed : RoutingMode → Bool
is_paid_allowed paid_allowed = true
is_paid_allowed _ = false

-- `VirtualKeyPermissions`, the fields that routing reads.
pub record Permissions : Type 0 where
  pub allowed_models : Option (List String)
  pub denied_models : Option (List String)
  pub allowed_providers : Option (List String)
  pub allow_paid_models : Bool

pub record RequiredCapabilities : Type 0 where
  pub stream : Option Bool
  pub json : Option Bool
  pub tools : Option Bool
  pub vision : Option Bool
  pub audio : Option Bool
  pub min_context_length : Option ℕ

pub record PoolModel (F : Type 0) : Type 0 where
  pub ref : ℕ
  pub model_id : String
  pub upstream_id : String
  pub provider_slug : String
  pub is_free : Bool
  pub context_length : ℕ
  pub capabilities : Capabilities
  pub status : ModelStatus
  pub blacklisted : Bool
  pub whitelisted : Bool
  pub weight_adj : F
  pub scores : Dimensions F

pub record Policy (F : Type 0) : Type 0 where
  pub name : String
  pub mode : RoutingMode
  pub weights : Option (Dimensions (Option F))
  pub provider_slug : Option String

pub record RouteRequestContext (F : Type 0) : Type 0 where
  pub alias : Option String
  pub explicit_model : Option String
  pub require_capabilities : Option RequiredCapabilities
  pub permissions : Option Permissions
  pub policy : Policy F
  pub max_candidates : ℕ

pub record FilteredOut : Type 0 where
  pub upstream_id : String
  pub reason : String

-- `required.cap === true && !caps.cap`
abbrev pub lacks : Option Bool → Bool → Bool
lacks (some true) has = not has
lacks _ has = false

-- `list?.length && !list.includes(x)`
abbrev pub not_in : Option (List String) → String → Bool
not_in none x = false
not_in (some xs) x = ltb 0 (length xs) && not (contains xs x)

-- `list?.includes(x)`
abbrev pub is_in : Option (List String) → String → Bool
is_in none x = false
is_in (some xs) x = contains xs x

module _ {F : Type 0} where
  unfoldable pub passes_capability_filter : PoolModel F → Option RequiredCapabilities → Bool
  passes_capability_filter model none = true
  passes_capability_filter model (some required) =
      let caps = model.capabilities in
      let min_context = or_else required.min_context_length 0 in
      if lacks required.stream caps.stream
      then false
      else if lacks required.json caps.json
      then false
      else if lacks required.tools caps.tools
      then false
      else if lacks required.vision caps.vision
      then false
      else if lacks required.audio caps.audio
      then false
      else if ltb 0 min_context && ltb model.context_length min_context
      then false
      else true

  unfoldable pub passes_virtual_key : PoolModel F → Option Permissions → Bool
  passes_virtual_key model none = true
  passes_virtual_key model (some perm) =
      if not_in perm.allowed_models model.upstream_id
      then false
      else if is_in perm.denied_models model.upstream_id
      then false
      else if not_in perm.allowed_providers model.provider_slug
      then false
      else if not perm.allow_paid_models && not model.is_free
      then false
      else true

  unfoldable pub passes_status : PoolModel F → RoutingMode → Bool → Bool
  passes_status model mode allow_paid =
      if (model.status == disabled) || (model.status == removed)
      then false
      else if (model.status == paid_now) && not allow_paid && not (is_paid_allowed mode)
      then false
      else true

  abbrev pub allows_paid : RouteRequestContext F → Bool
  allows_paid ctx =
      elim ctx.permissions [ none ↦ false | some p ↦ p.allow_paid_models ]
      || is_paid_allowed ctx.policy.mode

abbrev pub status_name : ModelStatus → String
status_name active = "active"
status_name degraded = "degraded"
status_name rate_limited = "rate_limited"
status_name disabled = "disabled"
status_name removed = "removed"
status_name paid_now = "paid_now"

module _ (N : Number) where
  open N use {F, lit}

  -- `ALIAS_HANDLERS`: the test by which an alias filters the pool.
  unfoldable pub alias_handler : String → Option (PoolModel F → Bool)
  alias_handler alias =
      if alias == "free/auto"
      then some (λ m. m.is_free)
      else if alias == "free/best"
      then some (λ m. m.is_free)
      else if alias == "free/fast"
      then some (λ m. m.is_free && at_most N (lit 4 10) m.scores.latency)
      else if alias == "free/large-context"
      then some (λ m. m.is_free && leb 100000 m.context_length)
      else if alias == "openrouter/free"
      then some (λ m. (m.provider_slug == "openrouter") && (m.upstream_id == "openrouter/free"))
      else if alias == "free/with-tools"
      then some (λ m. m.is_free && m.capabilities.tools)
      else if alias == "free/with-vision"
      then some (λ m. m.is_free && m.capabilities.vision)
      else if alias == "free/json-mode"
      then some (λ m. m.is_free && m.capabilities.json)
      else none

-- The reason of the first filter that refuses a model, in the order of the loop of `decide`.
unfoldable pub refusal : {F : Type 0} → RouteRequestContext F → PoolModel F → Option String
refusal ctx m =
    if not (passes_status m ctx.policy.mode (allows_paid ctx))
    then some ("status " ++ status_name m.status)
    else if not (passes_capability_filter m ctx.require_capabilities)
    then some "capability filter"
    else if not (passes_virtual_key m ctx.permissions)
    then some "virtual-key permissions"
    else if m.blacklisted
    then some "blacklisted"
    else none
