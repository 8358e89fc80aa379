-- ===== src/Webhook/Signature.antt =====
-- apps/api/src/lib/webhook-signer.ts: `signWebhook` and `verifyWebhook`. Texts are lists of UTF-16
-- units. HMAC-SHA256 is a parameter: the bytes of the code, for a secret and a text. Numbers are exact,
-- as the source's are below 2 ^ 53. Signed shows what the verification says of a signature.
pub mod Signed
use freellm_gateway.Base.{
  ℕ, zero, suc, ◌+◌, ◌-◌, ◌*◌, ◌/◌, ◌%◌, ◌<◌, String, Bool, true, false, ◌&&◌, ◌||◌, not, Option,
  none, some, List, [], ◌∷◌, ◌++◌, ltb, leb, ◌==◌, eq_nat, eq_units, if◌then◌else◌, length, All,
  or_else, ◌≡◌, map,
}
use freellm_gateway.Classify.Regex.{units}
use freellm_gateway.Keys.Secret.{trim, after_prefix, all_of, small}

-- `createHmac('sha256', secret).update(text).digest()` gives 32 bytes.
pub record Hmac : Type 0 where
  pub mac : List ℕ → List ℕ → List ℕ
  pub mac_length : (secret text : List ℕ) → length (mac secret text) ≡ 32
  pub mac_bytes : (secret text : List ℕ) → All (λ b. b < 256) (mac secret text)

pub record SignedWebhook : Type 0 where
  pub signature_header : List ℕ
  pub delivery_id : String
  pub timestamp : ℕ

pub data VerifyReason : Type 0 where
  malformed expired signature_mismatch : VerifyReason

pub record VerifyResult : Type 0 where
  pub valid : Bool
  pub reason : Option VerifyReason

-- `VerifyOptions`; the time, in milliseconds, is always given here.
pub record VerifyOptions : Type 0 where
  pub tolerance_seconds : Option ℕ
  pub now : ℕ

-- `${n}`, with a bound on the number of digits, and then without.
unfoldable pub digits_from : ℕ → ℕ → List ℕ
digits_from zero n = []
digits_from (suc fuel) n = elim (n / 10 == 0) [
  | true ↦ (48 + n % 10) ∷ []
  | false ↦ digits_from fuel (n / 10) ++ (48 + n % 10) ∷ []
]

unfoldable pub show : ℕ → List ℕ
unfolding digits_from
show n = digits_from (suc n) n

-- `Number.parseInt(digits, 10)`, after the number read so far.
unfoldable pub parse_digits : ℕ → List ℕ → ℕ
parse_digits n [] = n
parse_digits n (c ∷ cs) = parse_digits (n * 10 + (c - 48)) cs

abbrev pub hex_digit : ℕ → ℕ
hex_digit n = if ltb n 10 then 48 + n else 87 + n

-- `digest('hex')`
unfoldable pub to_hex : List ℕ → List ℕ
to_hex [] = []
to_hex (b ∷ bs) = hex_digit (b / 16) ∷ hex_digit (b % 16) ∷ to_hex bs

-- The value of a digit, of either case.
abbrev pub hex_value : ℕ → ℕ
hex_value c = if leb c 57 then c - 48 else small c - 87

-- `Buffer.from(text, 'hex')` of a text of such digits: a last one without a pair is dropped.
unfoldable pub from_hex : List ℕ → List ℕ
from_hex [] = []
from_hex (c ∷ []) = []
from_hex (c ∷ d ∷ cs) = (hex_value c * 16 + hex_value d) ∷ from_hex cs

abbrev pub is_digit : ℕ → Bool
is_digit c = leb 48 c && leb c 57

abbrev pub is_hex_digit : ℕ → Bool
is_hex_digit c = is_digit c || (leb 97 (small c) && leb (small c) 102)

-- The digits that a text starts with, and the rest.
unfoldable pub span_digits : List ℕ → List ℕ × List ℕ
span_digits [] = ([], [])
span_digits (c ∷ cs) =
    let (ds, rest) = span_digits cs in if is_digit c then (c ∷ ds, rest) else ([], c ∷ cs)

-- A prefix in either case, and what follows it.
abbrev pub after_label : List ℕ → List ℕ → Option (List ℕ)
after_label [] xs = some xs
after_label (p ∷ ps) [] = none
after_label (p ∷ ps) (x ∷ xs) = let rest = after_label ps xs in if p == small x then rest else none

abbrev pub label_t : List ℕ
label_t = 116 ∷ 61 ∷ []

abbrev pub label_v1 : List ℕ
label_v1 = 44 ∷ 118 ∷ 49 ∷ 61 ∷ []

-- `/^t=(\d+),v1=([0-9a-f]+)$/i`, with its two groups; first what follows the digits.
unfoldable pub match_rest : List ℕ × List ℕ → Option (List ℕ × List ℕ)
match_rest (ds, rest) = elim (after_label label_v1 rest) [
  | none ↦ none
  | some v1 ↦
      if ltb 0 (length ds) && ltb 0 (length v1) && all_of is_hex_digit v1
      then some (ds, v1)
      else none
]

unfoldable pub match_header : List ℕ → Option (List ℕ × List ℕ)
unfolding span_digits match_rest
match_header xs = elim (after_label label_t xs) [
  | none ↦ none
  | some rest ↦ match_rest (span_digits rest)
]

abbrev pub refused : VerifyReason → VerifyResult
refused reason = record { valid = false; reason = some reason }

-- `Math.abs(now - t)`
abbrev pub distance : ℕ → ℕ → ℕ
distance a b = (a - b) + (b - a)

module _ (H : Hmac) where
  -- `${timestamp}.${body}`, and its code under the secret.
  abbrev pub code_of : List ℕ → ℕ → List ℕ → List ℕ
  code_of secret timestamp body = H.mac secret (show timestamp ++ 46 ∷ body)

  unfoldable pub sign_webhook : List ℕ → List ℕ → ℕ → String → SignedWebhook
  unfolding show to_hex
  sign_webhook secret body now id = record {
    signature_header =
        label_t ++ (show (now / 1000) ++ (label_v1 ++ to_hex (code_of secret (now / 1000) body)));
    delivery_id = id;
    timestamp = now / 1000;
  }

  -- What follows the match of the header.
  unfoldable pub check_match :
      List ℕ → List ℕ → VerifyOptions → Option (List ℕ × List ℕ) → VerifyResult
  unfolding parse_digits from_hex show
  check_match secret body opts none = refused malformed
  check_match secret body opts (some (ds, v1)) =
      let t = parse_digits 0 ds in
      let a = from_hex v1 in
      let b = code_of secret t body in
      if ltb (or_else opts.tolerance_seconds 300) (distance (opts.now / 1000) t)
      then refused expired
      else if not (length a == length b)
      then refused signature_mismatch
      else if a == b
      then record { valid = true; reason = none }
      else refused signature_mismatch

  unfoldable pub verify_webhook : List ℕ → List ℕ → List ℕ → VerifyOptions → VerifyResult
  unfolding trim match_header check_match
  verify_webhook secret body header opts = check_match secret body opts (match_header (trim header))
