-- ===== src/Redact.antt =====
-- packages/shared/src/redact.ts: what `scrubObject` leaves out of a value. A value is a tree; the guard
-- against an object that is met twice, which writes `[circular]`, is left out. No code of the program
-- calls `scrubObject` (a test does): the logger redacts by paths of its own (lib/logger.ts). Texts are lists of UTF-16
-- units. Secrets shows that the redacted value does not depend on the secrets.
pub mod Secrets
use freellm_gateway.Base.{
  ℕ, ◌-◌, String, Bool, true, false, ◌&&◌, ◌||◌, Option, none, some, List, [], ◌∷◌, ◌++◌, take,
  length, ◌==◌, eq_nat, eq_string, if◌then◌else◌, leb, contains,
}
use freellm_gateway.Classify.Regex.{test, choice, words, units}

mutual
  pub data Value : Type 0 where
    null undefined : Value
    flag : Bool → Value
    -- A number, as it is written.
    number : String → Value
    text : List ℕ → Value
    arr : Elements → Value
    obj : Fields → Value

  pub data Elements : Type 0 where
    no_elements : Elements
    element : Value → Elements → Elements

  pub data Fields : Type 0 where
    no_fields : Fields
    field : String → Value → Fields → Fields

unfoldable pub redacted : List ℕ
unfolding units
redacted = units "[redacted]"

-- `key.slice(-2)`
abbrev pub last_two : List ℕ → List ℕ
last_two [] = []
last_two (c ∷ cs) = let rest = last_two cs in if leb (length (c ∷ cs)) 2 then c ∷ cs else rest

unfoldable pub mask_key : List ℕ → List ℕ
unfolding redacted
mask_key key = if leb (length key) 8 then redacted else take 4 key ++ 8230 ∷ last_two key

abbrev pub sensitive_headers : List String
sensitive_headers =
    "authorization" ∷ "x-api-key" ∷ "cookie" ∷ "set-cookie" ∷ "x-openrouter-key"
    ∷ "x-freellm-internal-token" ∷ []

abbrev pub sensitive_fields : List String
sensitive_fields =
    "authorization" ∷ "apiKey" ∷ "api_key" ∷ "password" ∷ "token" ∷ "accessToken" ∷ "access_token"
    ∷ "refreshToken" ∷ "sessionSecret" ∷ "masterKey" ∷ "cipherText" ∷ "cipher_text" ∷ "plain"
    ∷ "plaintext" ∷ "secret" ∷ "tokenHash" ∷ "sessionToken" ∷ "hash" ∷ []

abbrev pub is_sensitive : String → Bool
is_sensitive name = contains sensitive_fields name

-- `k.toLowerCase().includes('key')`; the sign for Kelvin is lowered to a k too.
unfoldable pub names_key : String → Bool
unfolding test choice words
names_key name = test true (choice "kKK" (words "ey" [])) name

-- What is written of one field, given what is written of its value.
abbrev pub scrub_field : String → Value → Value → Value
scrub_field name (text t) scrubbed =
    if is_sensitive name
    then text redacted
    else if names_key name
    then text (mask_key t)
    else scrubbed
scrub_field name v scrubbed = if is_sensitive name then text redacted else scrubbed

unfoldable mutual
  pub scrub : Value → Value
  scrub null = null
  scrub undefined = undefined
  scrub (flag b) = flag b
  scrub (number n) = number n
  scrub (text t) = text t
  scrub (arr xs) = arr (scrub_elements xs)
  scrub (obj fs) = obj (scrub_fields fs)

  pub scrub_elements : Elements → Elements
  scrub_elements no_elements = no_elements
  scrub_elements (element v xs) = element (scrub v) (scrub_elements xs)

  pub scrub_fields : Fields → Fields
  scrub_fields no_fields = no_fields
  scrub_fields (field name v fs) = field name (scrub_field name v (scrub v)) (scrub_fields fs)

-- `lower` is `toLowerCase`.
unfoldable pub scrub_headers : (String → String) → Fields → Fields
scrub_headers lower no_fields = no_fields
scrub_headers lower (field name v fs) =
    let rest = scrub_headers lower fs in
    field name (if contains sensitive_headers (lower name) then text redacted else v) rest
