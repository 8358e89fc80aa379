-- ===== src/Classify.antt =====
-- packages/routing-core/src/error-classifier.ts: `classifyRoutingError`. The regular expressions are
-- in Regex, over the UTF-16 units of a text.
pub mod Regex
pub mod Laws
use Prim.Native.String.{◌++◌}
use freellm_gateway.Base.{
  ℕ, ◌+◌, ◌/◌, ◌%◌, String, Bool, true, false, ◌&&◌, ◌||◌, Option, none, some, List, [], ◌∷◌, ◌==◌,
  eq_nat, eq_string, if◌then◌else◌, or_else, any, ltb, leb, zero, suc,
}
use Regex.{Pattern, test, words, gap, choice, plural}
use freellm_gateway.Errors.{
  ErrorKind, bad_request, unauthorized, forbidden, not_found, context_overflow, rate_limited,
  provider_unavailable, timeout, network_error, invalid_response, content_filter,
  balance_insufficient, auth_failure, unknown,
}

pub record ClassifierInput : Type 0 where
  pub status : Option ℕ
  pub message : Option String
  pub body_snippet : Option String
  pub cause_name : Option String
  pub errno : Option String

pub record ClassifiedError : Type 0 where
  pub kind : ErrorKind
  pub reason : String
  pub retriable : Bool
  pub hint_ms : Option ℕ
  pub provider_level : Bool

abbrev bal_patterns : List Pattern
bal_patterns =
    words "insufficient" (choice "_ " (words "balance" []))
    ∷ words "credit" (gap (words "exhausted" []))
    ∷ words "quota" (gap (words "exceeded" []))
    ∷ words "payment" (gap (words "required" []))
    ∷ []

abbrev ctx_patterns : List Pattern
ctx_patterns =
    words "context" (choice "_ " (words "length" []))
    ∷ words "maximum" (gap (words "token" (plural b's' [])))
    ∷ words "input" (gap (words "too" (choice "_ " (words "large" []))))
    ∷ words "exceeded" (gap (words "max" []))
    ∷ []

abbrev cf_patterns : List Pattern
cf_patterns =
    words "content" (choice "_ " (words "policy" []))
    ∷ words "content" (choice "_ " (words "filter" []))
    ∷ words "safety" (gap (words "violation" []))
    ∷ words "policy" (gap (words "violation" []))
    ∷ words "blocked" (gap (words "content" []))
    ∷ []

abbrev auth_patterns : List Pattern
auth_patterns =
    words "invalid" (gap (words "key" []))
    ∷ words "unauthor" []
    ∷ words "expired" (gap (words "token" []))
    ∷ words "revoked" []
    ∷ []

-- `[message ?? '', bodySnippet ?? ''].filter(Boolean).join(' | ')`
unfoldable pub combined_text : ClassifierInput → String
combined_text input =
    let m = or_else input.message "" in
    let b = or_else input.body_snippet "" in
    if m == "" then b else if b == "" then m else m ++ (" | " ++ b)

abbrev is_value : Option String → String → Bool
is_value none s = false
is_value (some t) s = t == s

-- The tests `patterns.some((re) => re.test(text))`, with and without the flag i.
unfoldable pub some_match : List Pattern → String → Bool
some_match patterns text = any (λ p. test true p text) patterns

unfoldable pub exact_match : String → String → Bool
exact_match word text = test false (words word []) text

abbrev digit : ℕ → String
digit n =
    if n == 0
    then "0"
    else if n == 1
    then "1"
    else if n == 2
    then "2"
    else if n == 3
    then "3"
    else if n == 4
    then "4"
    else if n == 5
    then "5"
    else if n == 6
    then "6"
    else if n == 7
    then "7"
    else if n == 8
    then "8"
    else "9"

-- `${n}`, with a bound on the number of digits.
unfoldable pub decimal_from : ℕ → ℕ → String
decimal_from zero n = ""
decimal_from (suc fuel) n =
    let more = decimal_from fuel (n / 10) in
    if n / 10 == 0 then digit (n % 10) else more ++ digit (n % 10)

unfoldable pub decimal : ℕ → String
unfolding decimal_from
decimal n = decimal_from (suc n) n

abbrev fails : ErrorKind → String → ClassifiedError
fails kind reason = record {
  kind = kind;
  reason = reason;
  retriable = false;
  hint_ms = none;
  provider_level = false;
}

abbrev fails_provider : ErrorKind → String → ClassifiedError
fails_provider kind reason = record (fails kind reason) { provider_level = true }

abbrev retries : ErrorKind → String → ℕ → ClassifiedError
retries kind reason hint = record {
  kind = kind;
  reason = reason;
  retriable = true;
  hint_ms = some hint;
  provider_level = false;
}

-- The branch `status === null`.
unfoldable pub classify_transport : ClassifierInput → String → ClassifiedError
classify_transport input text =
    if is_value input.cause_name "AbortError"
      || some_match (words "abort" [] ∷ words "timeout" [] ∷ []) text
    then retries timeout "abort/timeout" 1500
    else if is_value input.errno "ETIMEDOUT" || exact_match "ETIMEDOUT" text
    then retries timeout "ETIMEDOUT" 1500
    else if is_value input.errno "ECONNRESET" || exact_match "ECONNRESET" text
    then retries network_error "ECONNRESET" 1000
    else if some_match (words "EAI_AGAIN" [] ∷ words "ENOTFOUND" [] ∷ words "DNS" [] ∷ []) text
    then record (retries network_error "dns/network" 2000) { provider_level = true }
    else retries network_error "unspecified network failure" 1500

-- The branch `status === 400 || status === 422`.
unfoldable pub classify_rejected : String → ClassifiedError
classify_rejected text =
    if some_match ctx_patterns text
    then fails context_overflow "context length"
    else if some_match cf_patterns text
    then fails content_filter "content policy"
    else if some_match bal_patterns text
    then fails_provider balance_insufficient "balance text in 400/422"
    else fails bad_request "caller-side validation"

-- The branch `status >= 200 && status < 300`.
unfoldable pub classify_success : String → ClassifiedError
classify_success text =
    if some_match (words "invalid" [] ∷ words "malformed" [] ∷ words "parse" [] ∷ []) text
    then retries invalid_response "2xx with bad body" 500
    else fails unknown "unexpected 2xx classified as error"

-- The branches below 400 and 422, in order.
unfoldable pub classify_status : ℕ → String → ClassifiedError
classify_status status text =
    if status == 401
    then if some_match auth_patterns text
      then fails_provider auth_failure "auth pattern"
      else fails_provider unauthorized "401"
    else if status == 402
    then fails_provider balance_insufficient "402"
    else if status == 403
    then fails forbidden "403"
    else if status == 404
    then fails not_found "404 — model likely removed"
    else if status == 408
    then retries timeout "408" 1500
    else if status == 413
    then fails context_overflow "413"
    else if status == 425
    then retries rate_limited "425 too early" 2000
    else if status == 429
    then retries rate_limited "429" 5000
    else if status == 451
    then fails content_filter "451"
    else if leb 500 status && ltb status 600
    then record {
      kind = provider_unavailable;
      reason = decimal status;
      retriable = true;
      hint_ms = some (if status == 503 then 3000 else 1500);
      provider_level = status == 503;
    }
    else if leb 200 status && ltb status 300
    then classify_success text
    else fails unknown ("unhandled " ++ decimal status)

unfoldable pub classify_routing_error : ClassifierInput → ClassifiedError
classify_routing_error input =
    let text = combined_text input in
    elim input.status [
      | none ↦ classify_transport input text
      | some status ↦
          if status == 400 || status == 422
          then classify_rejected text
          else classify_status status text
    ]
