-- ===== src/Webhook.antt =====
-- apps/api/src/services/webhook-dispatcher.service.ts: `deliverWithRetry`. What `deliverOnce` comes
-- to at each attempt is a parameter, and so is the cut of a message to 500 characters, `clip`; what the dispatcher does is a list of actions. Attempts has
-- what is tried and recorded, Waits how long it takes.
pub mod Attempts
pub mod Waits
pub mod Signature
use freellm_gateway.Base.{
  ℕ, zero, suc, ◌+◌, ◌-◌, ◌*◌, ◌^◌, String, Bool, true, false, Option, none, some, List, [], ◌∷◌,
  ◌++◌, ltb, if◌then◌else◌, or_else,
}

pub record WebhookOptions : Type 0 where
  pub max_attempts : ℕ
  pub base_backoff_ms : ℕ

abbrev pub default_options : WebhookOptions
default_options = record { max_attempts = 3; base_backoff_ms = 300 }

-- `deliverOnce`: a response, with `ok` and the status, or an exception with its message.
pub data Delivery : Type 0 where
  responded : Bool → ℕ → Delivery
  threw : String → Delivery

-- The columns of `webhook_deliveries` that the outcome decides.
pub record DeliveryRow : Type 0 where
  pub ok : Bool
  pub http_status : Option ℕ
  pub attempts : ℕ
  pub error_message : Option String

pub data Action : Type 0 where
  -- A request with the number of its attempt, from 0.
  posts : ℕ → Action
  waits : ℕ → Action
  -- `recordDelivery` of the subscription, with the error of a failure.
  counts : Option String → Action
  rows : DeliveryRow → Action
  -- The `error_events` row: the error that its message ends with, and the attempts that it names.
  reports : String → ℕ → Action

module _ (opts : WebhookOptions) (not_ok : String) (clip : String → String)
    (answers : ℕ → Delivery) where
  abbrev pub succeed : ℕ → ℕ → List Action
  succeed status used =
      counts none
      ∷ rows
          (record { ok = true; http_status = some status; attempts = used; error_message = none })
      ∷ []

  abbrev pub give_up : Option String → Option ℕ → ℕ → List Action
  give_up last_error last_status used =
      let message = or_else last_error not_ok in
      counts (some message)
      ∷ rows (record {
        ok = false;
        http_status = last_status;
        attempts = used;
        error_message = some (clip message);
      })
      ∷ reports message opts.max_attempts
      ∷ []

  abbrev pub pause : ℕ → List Action
  pause attempt =
      if ltb attempt (opts.max_attempts - 1)
      then waits (opts.base_backoff_ms * 4 ^ attempt) ∷ []
      else []

  -- The loop, with the attempts that are left.
  unfoldable pub attempt_from : ℕ → ℕ → Option String → Option ℕ → ℕ → List Action
  attempt_from zero attempt last_error last_status used = give_up last_error last_status used
  attempt_from (suc left) attempt last_error last_status used =
      posts attempt ∷ (elim (answers attempt) [
        | responded true status ↦ succeed status (attempt + 1)
        | responded false status ↦
            pause attempt ++ attempt_from left (attempt + 1) last_error (some status) (attempt + 1)
        | threw message ↦
            pause attempt
            ++ attempt_from left (attempt + 1) (some message) last_status (attempt + 1)
      ])

  unfoldable pub deliver_with_retry : List Action
  unfolding attempt_from
  deliver_with_retry = attempt_from opts.max_attempts 0 none none 0
