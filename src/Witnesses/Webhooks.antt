-- ===== src/Witnesses/Webhooks.antt =====
-- A webhook that answers 500, then times out, then answers 200.
use freellm_gateway.Base.{
  ℕ, zero, suc, ◌+◌, ◌*◌, ◌%◌, ◌<◌, String, true, false, some, none, arith, List, [], ◌∷◌, length,
  All, ◌≡◌, refl,
}
use freellm_gateway.Webhook.{default_options, Delivery, responded, threw, deliver_with_retry}
use freellm_gateway.Webhook.Attempts.{sum, Recorded, deliver_with_retry-Recorded}
use freellm_gateway.Classify.Regex.{units}
use freellm_gateway.Webhook.Signature.{
  Hmac, expired, show, digits_from, sign_webhook, verify_webhook,
}
use freellm_gateway.Webhook.Signature.Signed.{verify_webhook-sign_webhook}
use freellm_gateway.Webhook.Waits.{Waited, deliver_with_retry-Waited}

abbrev answers : ℕ → Delivery
answers zero = responded false 500
answers (suc zero) = threw "aborted"
answers (suc (suc n)) = responded true 200

abbrev same : String → String
same text = text

deliver_with_retry-Recorded_example :
    Recorded default_options "非 2xx 响应" same answers 0
      (some 2)
      (sum (deliver_with_retry default_options "非 2xx 响应" same answers))
deliver_with_retry-Recorded_example =
    deliver_with_retry-Recorded default_options "非 2xx 响应" same answers

deliver_with_retry-Waited_example :
    Waited default_options "非 2xx 响应" same answers 0
      (sum (deliver_with_retry default_options "非 2xx 响应" same answers))
deliver_with_retry-Waited_example =
    deliver_with_retry-Waited default_options "非 2xx 响应" same answers (omega arith)

copies : ℕ → ℕ → List ℕ
copies zero b = []
copies (suc n) b = b ∷ copies n b

length-copies : (n b : ℕ) → length (copies n b) ≡ n
unfolding copies
length-copies zero b = refl
length-copies (suc n) b = omega (arith, length-copies n b)

copies-IsByte : (n b : ℕ) → b < 256 → All (λ c. c < 256) (copies n b)
unfolding copies
copies-IsByte zero b h = tt
copies-IsByte (suc n) b h = (h, copies-IsByte n b h)

-- A code of 32 bytes, for a test: the lengths of the secret and the text.
abbrev lengths : Hmac
lengths = record {
  mac = λ secret text. copies 32 ((length secret * 16 + length text) % 256);
  mac_length = λ secret text. length-copies 32 _;
  mac_bytes = λ secret text. copies-IsByte 32 _ (omega arith);
}

-- A signature of the second 1700000000, checked 100 seconds later.
verify_webhook-sign_webhook_example :
    verify_webhook lengths
      (units "whsec_1")
      (units "{}")
      (sign_webhook lengths (units "whsec_1") (units "{}") 1700000000123 "d1").signature_header
      (record { tolerance_seconds = none; now = 1700000100000 })
    ≡ record { valid = true; reason = none }
unfolding copies show digits_from units
verify_webhook-sign_webhook_example =
    verify_webhook-sign_webhook lengths (units "whsec_1") (units "whsec_1") (units "{}")
      (units "{}") 1700000000123 "d1" (record { tolerance_seconds = none; now = 1700000100000 })

-- Ten minutes later it is too old.
too_old :
    (verify_webhook lengths
      (units "whsec_1")
      (units "{}")
      (sign_webhook lengths (units "whsec_1") (units "{}") 1700000000123 "d1").signature_header
      (record { tolerance_seconds = none; now = 1700000600000 })).reason
    ≡ some expired
unfolding copies show digits_from units verify_webhook sign_webhook
    freellm_gateway.Webhook.Signature.check_match freellm_gateway.Webhook.Signature.match_header
    freellm_gateway.Webhook.Signature.match_rest freellm_gateway.Webhook.Signature.span_digits
    freellm_gateway.Webhook.Signature.parse_digits freellm_gateway.Webhook.Signature.from_hex
    freellm_gateway.Webhook.Signature.to_hex freellm_gateway.Keys.Secret.trim
    freellm_gateway.Keys.Secret.trim_start freellm_gateway.Keys.Secret.trim_end
too_old = refl
