-- ===== src/Alias.antt =====
-- apps/api/src/lib/model-alias.ts: `resolveModel` on the code units of the `model` field.
use freellm_gateway.Base.{
  ℕ, String, Bool, true, false, Option, none, some, List, [], ◌∷◌, ◌≡◌, refl, ap, ◌∙◌, ◌==◌,
  eq_units, if◌then◌else◌, is_some,
}
use freellm_gateway.Number.{Number}
use freellm_gateway.Router.{alias_handler}
use freellm_gateway.Classify.Regex.{units}
use freellm_gateway.Keys.Secret.{trim}

data ModelAlias : Type 0 where
  auto : ModelAlias
  best : ModelAlias
  fast : ModelAlias
  large_context : ModelAlias
  openrouter_free : ModelAlias

abbrev alias_name : ModelAlias → String
alias_name auto = "free/auto"
alias_name best = "free/best"
alias_name fast = "free/fast"
alias_name large_context = "free/large-context"
alias_name openrouter_free = "openrouter/free"

abbrev known_aliases : List ModelAlias
known_aliases = auto ∷ best ∷ fast ∷ large_context ∷ openrouter_free ∷ []

record Hints : Type 0 where
  prefer_fast : Bool
  require_large_context : Bool
  force_provider_slug : Option String

record ResolvedModel : Type 0 where
  alias : Option ModelAlias
  explicit_upstream_id : Option (List ℕ)
  hints : Hints

abbrev no_hints : Hints
no_hints = record { prefer_fast = false; require_large_context = false; force_provider_slug = none }

abbrev hints_of : ModelAlias → Hints
hints_of auto = no_hints
hints_of best = no_hints
hints_of fast = record no_hints { prefer_fast = true }
hints_of large_context = record no_hints { require_large_context = true }
hints_of openrouter_free = record no_hints { force_provider_slug = some "openrouter" }

-- `KNOWN_ALIASES.includes(trimmed)`, with the alias that it is.
unfoldable find_alias : List ℕ → List ModelAlias → Option ModelAlias
unfolding units
find_alias text [] = none
find_alias text (a ∷ rest) =
    let later = find_alias text rest in if units (alias_name a) == text then some a else later

unfoldable resolve_trimmed : List ℕ → ResolvedModel
unfolding find_alias
resolve_trimmed trimmed = elim (find_alias trimmed known_aliases) [
  | none ↦ record { alias = none; explicit_upstream_id = some trimmed; hints = no_hints }
  | some a ↦ record { alias = some a; explicit_upstream_id = none; hints = hints_of a }
]

unfoldable resolve_model : List ℕ → ResolvedModel
unfolding trim resolve_trimmed
resolve_model raw = resolve_trimmed (trim raw)

resolve_trimmed-units :
    (a : ModelAlias)
    → resolve_trimmed (units (alias_name a))
      ≡ record { alias = some a; explicit_upstream_id = none; hints = hints_of a }
unfolding resolve_trimmed find_alias units
resolve_trimmed-units auto = refl
resolve_trimmed-units best = refl
resolve_trimmed-units fast = refl
resolve_trimmed-units large_context = refl
resolve_trimmed-units openrouter_free = refl

-- A name that trims to an alias is resolved to that alias with its hints, and to no explicit model.
resolve_model-alias :
    (a : ModelAlias) (raw : List ℕ)
    → trim raw ≡ units (alias_name a)
    → resolve_model raw ≡ record { alias = some a; explicit_upstream_id = none; hints = hints_of a }
unfolding resolve_model
resolve_model-alias a raw e = ap resolve_trimmed e ∙ resolve_trimmed-units a

-- The router filters the pool by every alias that a name is resolved to.
alias_handler-alias_name :
    (N : Number) (a : ModelAlias) → is_some (alias_handler N (alias_name a)) ≡ true
unfolding alias_handler
alias_handler-alias_name N auto = refl
alias_handler-alias_name N best = refl
alias_handler-alias_name N fast = refl
alias_handler-alias_name N large_context = refl
alias_handler-alias_name N openrouter_free = refl

-- The router has a filter for `free/with-tools`, a name that is resolved to an explicit model.
with_tools-alias :
    (N : Number)
    → (is_some (alias_handler N "free/with-tools") ≡ true)
      × (resolve_model (units "free/with-tools")).alias ≡ none
unfolding alias_handler resolve_model resolve_trimmed find_alias units trim
    freellm_gateway.Keys.Secret.trim_start freellm_gateway.Keys.Secret.trim_end
with_tools-alias N = (refl, refl)
