-- ===== src/Webhook/Signature/Signed.antt =====
-- What the verification says of a signature that the dispatcher made.
use freellm_gateway.Base.{
  ℕ, zero, suc, ◌+◌, ◌-◌, ◌*◌, ◌/◌, ◌%◌, ◌<◌, ◌≤◌, String, true, false, none, some, List, [], ◌∷◌,
  ◌++◌, ltb, ◌==◌, eq_nat, eq_units, if◌then◌else◌, length, All, All-append, or_else, ◌≡◌, refl,
  ◌∙◌, ap, arith, Bool-cases, inl, inr, length-append,
}
use freellm_gateway.Keys.Secret.{trim, trim_start, trim_end, is_space, all_of}
use freellm_gateway.Webhook.Signature.{
  Hmac, expired, signature_mismatch, VerifyResult, VerifyOptions, digits_from, show, parse_digits,
  hex_digit, to_hex, hex_value, from_hex, is_digit, is_hex_digit, span_digits, label_t, label_v1,
  match_rest, match_header, refused, distance, code_of, check_match, sign_webhook, verify_webhook,
}

abbrev IsDigit : ℕ → Type 0
IsDigit c = (48 ≤ c) × (c ≤ 57)

parse_digits-append :
    (n : ℕ) (xs ys : List ℕ) → parse_digits n (xs ++ ys) ≡ parse_digits (parse_digits n xs) ys
unfolding parse_digits
parse_digits-append n [] ys = refl
parse_digits-append n (x ∷ xs) ys = parse_digits-append (n * 10 + (x - 48)) xs ys

digits_from-IsDigit : (fuel n : ℕ) → All IsDigit (digits_from fuel n)
unfolding digits_from
digits_from-IsDigit zero n = tt
digits_from-IsDigit (suc fuel) n = elim (Bool-cases (n / 10 == 0)) [
  | inl last ↦ rw (digits_from, last) (omega arith, tt)
  | inr more ↦
      rw (digits_from, more)
        (All-append IsDigit _ _ (digits_from-IsDigit fuel (n / 10)) (omega arith, tt))
]

parse-digits_from : (fuel n : ℕ) → n < fuel → parse_digits 0 (digits_from fuel n) ≡ n
unfolding digits_from parse_digits
parse-digits_from zero n h = absurd (omega (arith, h))
parse-digits_from (suc fuel) n h = elim (Bool-cases (n / 10 == 0)) [
  | inl last ↦ rw (digits_from, last) (ground (arith, last))
  | inr more ↦
      rw
        (
          digits_from,
          more,
          parse_digits-append 0 (digits_from fuel (n / 10)) ((48 + n % 10) ∷ []),
          parse-digits_from fuel (n / 10) (ground (arith, h, more)),
        )
        (omega arith)
]

length-show : (n : ℕ) → 0 < length (show n)
unfolding show digits_from
length-show n = elim (Bool-cases (n / 10 == 0)) [
  | inl last ↦ rw (digits_from, last) (omega arith)
  | inr more ↦
      rw (digits_from, more)
        (omega (arith, length-append (digits_from n (n / 10)) ((48 + n % 10) ∷ [])))
]

span_digits-append :
    (ds : List ℕ) (c : ℕ) (cs : List ℕ)
    → All IsDigit ds
    → is_digit c ≡ false
    → span_digits (ds ++ c ∷ cs) ≡ (ds, c ∷ cs)
unfolding span_digits
span_digits-append [] c cs h other = rw other refl
span_digits-append (d ∷ ds) c cs h other =
    let digit : is_digit d ≡ true = ground (arith, h.0) in
    rw (span_digits-append ds c cs h.1 other, digit) refl

-- A hexadecimal digit that `digest` writes.
abbrev IsLower : ℕ → Type 0
IsLower c = (is_hex_digit c ≡ true) × (is_space c ≡ false)

hex_digit-IsLower : (n : ℕ) → n < 16 → IsLower (hex_digit n)
hex_digit-IsLower n h = (ground (arith, h), ground (arith, h))

hex_value-hex_digit : (n : ℕ) → n < 16 → hex_value (hex_digit n) ≡ n
hex_value-hex_digit n h = ground (arith, h)

to_hex-IsLower : (bs : List ℕ) → All (λ b. b < 256) bs → All IsLower (to_hex bs)
unfolding to_hex
to_hex-IsLower [] h = tt
to_hex-IsLower (b ∷ bs) h = (
  hex_digit-IsLower (b / 16) (omega (arith, h.0)),
  (hex_digit-IsLower (b % 16) (omega arith), to_hex-IsLower bs h.1),
)

from_hex-to_hex : (bs : List ℕ) → All (λ b. b < 256) bs → from_hex (to_hex bs) ≡ bs
unfolding from_hex to_hex
from_hex-to_hex [] h = refl
from_hex-to_hex (b ∷ bs) h =
    rw
      (
        hex_value-hex_digit (b / 16) (omega (arith, h.0)),
        hex_value-hex_digit (b % 16) (omega arith),
        from_hex-to_hex bs h.1,
      )
      (ap (λ c. c ∷ bs) (omega arith))

abbrev IsInk : ℕ → Type 0
IsInk c = is_space c ≡ false

digit-IsInk : (c : ℕ) → IsDigit c → IsInk c
digit-IsInk c h = ground (arith, h.0, h.1)

digits-IsInk : (cs : List ℕ) → All IsDigit cs → All IsInk cs
digits-IsInk [] h = tt
digits-IsInk (c ∷ cs) h = (digit-IsInk c h.0, digits-IsInk cs h.1)

lower-IsInk : (cs : List ℕ) → All IsLower cs → All IsInk cs
lower-IsInk [] h = tt
lower-IsInk (c ∷ cs) h = (h.0.1, lower-IsInk cs h.1)

trim_end-IsInk : (cs : List ℕ) → All IsInk cs → trim_end cs ≡ cs
unfolding trim_end
trim_end-IsInk [] h = refl
trim_end-IsInk (c ∷ []) h = rw h.0 refl
trim_end-IsInk (c ∷ d ∷ ds) h = rw (trim_end-IsInk (d ∷ ds) h.1) refl

trim-IsInk : (cs : List ℕ) → All IsInk cs → trim cs ≡ cs
unfolding trim trim_start
trim-IsInk [] h = trim_end-IsInk [] h
trim-IsInk (c ∷ cs) h = rw h.0 (trim_end-IsInk (c ∷ cs) h)

all_hex : (cs : List ℕ) → All IsLower cs → all_of is_hex_digit cs ≡ true
all_hex [] h = refl
all_hex (c ∷ cs) h = rw (h.0.0, all_hex cs h.1) refl

abbrev header_of : List ℕ → List ℕ → List ℕ
header_of ds v1 = label_t ++ (ds ++ (label_v1 ++ v1))

match-header_of :
    (ds v1 : List ℕ)
    → All IsDigit ds
    → All IsLower v1
    → 0 < length ds
    → 0 < length v1
    → match_header (header_of ds v1) ≡ some (ds, v1)
unfolding match_header match_rest
match-header_of ds v1 digits lower some_ds some_v1 =
    let one : ltb 0 (length ds) ≡ true = ground (arith, some_ds) in
    let two : ltb 0 (length v1) ≡ true = ground (arith, some_v1) in
    ap match_rest (span_digits-append ds 44 (118 ∷ 49 ∷ 61 ∷ v1) digits refl)
    ∙ rw (match_rest, one, two, all_hex v1 lower) refl

trim-header_of :
    (ds v1 : List ℕ) → All IsDigit ds → All IsLower v1 → trim (header_of ds v1) ≡ header_of ds v1
trim-header_of ds v1 digits lower = trim-IsInk (header_of ds v1) (
  refl,
  (
    refl,
    All-append IsInk ds (label_v1 ++ v1) (digits-IsInk ds digits)
        (refl, (refl, (refl, (refl, lower-IsInk v1 lower)))),
  ),
)

length-to_hex : (bs : List ℕ) → length (to_hex bs) ≡ 2 * length bs
unfolding to_hex
length-to_hex [] = refl
length-to_hex (b ∷ bs) = omega (arith, length-to_hex bs)

module _ (H : Hmac) where
  -- What is to be said of a header that was signed for a secret and a body at a time.
  abbrev pub judged : List ℕ → List ℕ → List ℕ → List ℕ → ℕ → VerifyOptions → VerifyResult
  judged secret secret' body body' now opts =
      if ltb (or_else opts.tolerance_seconds 300) (distance (opts.now / 1000) (now / 1000))
      then refused expired
      else if code_of H secret (now / 1000) body == code_of H secret' (now / 1000) body'
      then record { valid = true; reason = none }
      else refused signature_mismatch

  -- A receiver with any secret and body checks a header that `signWebhook` made for a secret, a body
  -- and a time. It is never malformed: it is expired exactly if the two clocks, in whole seconds, are
  -- further apart than the tolerance, so that at exactly the tolerance it still passes; and if it is
  -- not expired, it is valid exactly if the code of the
  -- signed text under the receiver's secret is the one in the header, as it is for the same secret
  -- and body, and is a mismatch else.
  pub verify_webhook-sign_webhook :
      (secret secret' body body' : List ℕ) (now : ℕ) (id : String) (opts : VerifyOptions)
      → verify_webhook H secret' body' (sign_webhook H secret body now id).signature_header opts
        ≡ judged secret secret' body body' now opts
  unfolding sign_webhook verify_webhook check_match
  verify_webhook-sign_webhook secret secret' body body' now id opts =
      let t = now / 1000 in
      let bytes = code_of H secret t body in
      let digits : All IsDigit (show t) = digits_from-IsDigit (suc t) t in
      let lower = to_hex-IsLower bytes (H.mac_bytes secret _) in
      let long : 0 < length (to_hex bytes) =
        omega (arith, length-to_hex bytes, H.mac_length secret (show t ++ 46 ∷ body)) in
      let back : parse_digits 0 (show t) ≡ t = parse-digits_from (suc t) t (omega arith) in
      let same : (length bytes == length (code_of H secret' t body')) ≡ true = ground (
        arith,
        H.mac_length secret (show t ++ 46 ∷ body),
        H.mac_length secret' (show t ++ 46 ∷ body'),
      ) in
      ap (λ cs. check_match H secret' body' opts (match_header cs))
        (trim-header_of (show t) (to_hex bytes) digits lower)
      ∙ ap (check_match H secret' body' opts)
          (match-header_of (show t) (to_hex bytes) digits lower (length-show t) long)
      ∙ rw (check_match, back, from_hex-to_hex bytes (H.mac_bytes secret _), same) refl
