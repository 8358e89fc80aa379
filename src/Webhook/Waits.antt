-- ===== src/Webhook/Waits.antt =====
-- How long a delivery waits.
use freellm_gateway.Base.{
  ℕ, zero, suc, ◌+◌, ◌-◌, ◌*◌, ◌^◌, ◌<◌, String, true, false, Option, none, some, List, ◌∷◌, ◌++◌,
  ◌≡◌, refl, arith, ltb, Bool-cases, inl, inr,
}
use native.Mathlib.Numerals.{add-one}
use native.Mathlib.Nat.{pow-suc}
use freellm_gateway.Webhook.{
  WebhookOptions, Delivery, responded, threw, Action, posts, give_up, pause, attempt_from,
  deliver_with_retry,
}
use freellm_gateway.Webhook.Attempts.{Sum, sum}

module _ (opts : WebhookOptions) (not_ok : String) (clip : String → String)
    (answers : ℕ → Delivery) where
  -- The requests end with attempt last, and the waits between them are a geometric sum.
  abbrev pub Waited : ℕ → Sum → Type 0
  Waited attempt s =
      (last : ℕ) × (s.requests + attempt ≡ last + 1)
      × (3 * s.waited + opts.base_backoff_ms * 4 ^ attempt ≡ opts.base_backoff_ms * 4 ^ last)

  four_times :
      (attempt : ℕ)
      → opts.base_backoff_ms * 4 ^ (attempt + 1) ≡ 4 * (opts.base_backoff_ms * 4 ^ attempt)
  four_times attempt = rw (add-one attempt, pow-suc 4 attempt) (omega arith)

  paused :
      (attempt : ℕ) (more : List Action)
      → attempt + 1 < opts.max_attempts
      → Waited (attempt + 1) (sum more)
      → Waited attempt (sum (posts attempt ∷ pause opts not_ok clip answers attempt ++ more))
  paused attempt more room (last, total, wait) =
      elim (Bool-cases (ltb attempt (opts.max_attempts - 1))) [
        | inl e ↦ rw e (last, omega (arith, total), omega (arith, wait, four_times attempt))
        | inr e ↦ absurd (ground (arith, e, room))
      ]

  ended :
      (attempt : ℕ) (last_error : Option String) (last_status : Option ℕ) (used : ℕ)
      → attempt + 1 ≡ opts.max_attempts
      → Waited attempt (
          sum (
            posts attempt ∷ pause opts not_ok clip answers attempt
            ++ give_up opts not_ok clip answers last_error last_status used))
  ended attempt last_error last_status used e =
      elim (Bool-cases (ltb attempt (opts.max_attempts - 1))) [
        | inl e' ↦ absurd (ground (arith, e, e'))
        | inr e' ↦ rw e' (attempt, omega arith, omega arith)
      ]

  attempt_from-Waited :
      (left attempt : ℕ) (last_error : Option String) (last_status : Option ℕ) (used : ℕ)
      → attempt + suc left ≡ opts.max_attempts
      → Waited attempt (
          sum
            (attempt_from opts not_ok clip answers (suc left) attempt last_error last_status used))
  unfolding attempt_from
  attempt_from-Waited zero attempt last_error last_status used e = go (answers attempt) refl
    where
      go :
          (d : Delivery)
          → answers attempt ≡ d
          → Waited attempt (
              sum (
                attempt_from opts not_ok clip answers
                  (suc zero)
                  attempt
                  last_error
                  last_status
                  used))
      go (responded true status) h = rw h (attempt, omega arith, omega arith)
      go (responded false status) h =
          rw h (ended attempt last_error (some status) (attempt + 1) (omega (arith, e)))
      go (threw message) h =
          rw h (ended attempt (some message) last_status (attempt + 1) (omega (arith, e)))
  attempt_from-Waited (suc left) attempt last_error last_status used e =
      go (answers attempt) refl
        (λ err st. attempt_from-Waited left (attempt + 1) err st (attempt + 1) (omega (arith, e)))
    where
      go :
          (d : Delivery)
          → answers attempt ≡ d
          → ((err : Option String) (st : Option ℕ)
              → Waited (attempt + 1) (
                  sum (
                    attempt_from opts not_ok clip answers
                      (suc left)
                      (attempt + 1)
                      err
                      st
                      (attempt + 1))))
          → Waited attempt (
              sum (
                attempt_from opts not_ok clip answers
                  (suc (suc left))
                  attempt
                  last_error
                  last_status
                  used))
      go (responded true status) h ih = rw h (attempt, omega arith, omega arith)
      go (responded false status) h ih =
          rw h (paused attempt _ (omega (arith, e)) (ih last_error (some status)))
      go (threw message) h ih =
          rw h (paused attempt _ (omega (arith, e)) (ih (some message) last_status))

  -- A delivery with at least one attempt allowed: with n the number of the last attempt that it
  -- makes, from 0, it makes n + 1 requests and waits base, 4 * base, … ms between them, in all a
  -- third of base * 4 ^ n - base.
  pub deliver_with_retry-Waited :
      0 < opts.max_attempts → Waited 0 (sum (deliver_with_retry opts not_ok clip answers))
  unfolding deliver_with_retry
  deliver_with_retry-Waited some' = go opts.max_attempts refl some'
    where
      go :
          (n : ℕ)
          → n ≡ opts.max_attempts
          → 0 < n
          → Waited 0 (sum (attempt_from opts not_ok clip answers n 0 none none 0))
      go zero e h = absurd (omega (arith, h))
      go (suc n) e h = attempt_from-Waited n 0 none none 0 (omega (arith, e))
