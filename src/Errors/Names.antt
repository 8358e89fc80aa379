-- ===== src/Errors/Names.antt =====
-- `mapKindToHttpStatus` at an arbitrary text, and `toKind` of
-- apps/api/src/services/route-executor.service.ts, which narrows a provider's text to a kind.
use freellm_gateway.Base.{
  ℕ, String, not, ◌&&◌, Option, none, some, List, [], ◌∷◌, map, ◌≡◌, refl, ◌==◌, if◌then◌else◌,
  or_else, contains, find, arith, if_same, eq_string, eq_nat, ◌≤◌, ◌<◌,
}
use freellm_gateway.Errors.{
  ErrorKind, bad_request, unauthorized, forbidden, not_found, unsupported_capability,
  context_overflow, rate_limited, provider_unavailable, timeout, network_error, invalid_response,
  content_filter, balance_insufficient, auth_failure, no_route_available, all_attempts_failed,
  cooldown_active, unknown, kind_name, http_status_by_kind,
}

abbrev pub all_kinds : List ErrorKind
all_kinds =
    bad_request ∷ unauthorized ∷ forbidden ∷ not_found ∷ unsupported_capability ∷ context_overflow
    ∷ rate_limited ∷ provider_unavailable ∷ timeout ∷ network_error ∷ invalid_response
    ∷ content_filter ∷ balance_insufficient ∷ auth_failure ∷ no_route_available
    ∷ all_attempts_failed ∷ cooldown_active ∷ unknown ∷ []

-- The kind whose literal a text is.
unfoldable pub kind_of_name : String → Option ErrorKind
unfolding kind_name
kind_of_name s = find (λ k. kind_name k == s) all_kinds

-- `HTTP_STATUS_BY_KIND[s] ?? 500`
unfoldable pub map_kind_to_http_status : String → ℕ
unfolding http_status_by_kind
map_kind_to_http_status s = elim (kind_of_name s) [ some k ↦ http_status_by_kind k | none ↦ 500 ]

-- `s as FreeLLMErrorKind`; a text that is no kind behaves as `unknown` where kinds are read.
cast_kind : String → ErrorKind
cast_kind s = or_else (kind_of_name s) unknown

unfoldable pub to_kind : Option String → ErrorKind
unfolding map_kind_to_http_status cast_kind kind_name
to_kind none = unknown
to_kind (some s) =
    let status = map_kind_to_http_status s in
    if s == ""
    then unknown
    else if s == "unknown"
    then unknown
    else if (status == 500) && not (contains (map kind_name all_kinds) s)
    then unknown
    else cast_kind s

-- Every kind comes back from its literal: `toKind` loses none of the eighteen.
pub to_kind-kind_name : (k : ErrorKind) → to_kind (some (kind_name k)) ≡ k
unfolding to_kind kind_of_name kind_name
to_kind-kind_name bad_request = refl
to_kind-kind_name _ = refl

-- The status of a kind is an HTTP error status.
pub http_status_bounds :
    (k : ErrorKind) → (400 ≤ http_status_by_kind k) × (http_status_by_kind k < 600)
unfolding http_status_by_kind
http_status_bounds bad_request = omega arith
http_status_bounds _ = omega arith

-- A text that names no kind becomes `unknown`.
pub to_kind_of_none : (s : String) → kind_of_name s ≡ none → to_kind (some s) ≡ unknown
unfolding to_kind
to_kind_of_none s h = rw (h, map_kind_to_http_status, cast_kind) (simp if_same)
