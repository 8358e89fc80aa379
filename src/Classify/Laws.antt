-- ===== src/Classify/Laws.antt =====
-- What the classification guarantees to the executor.
use freellm_gateway.Base.{
  ℕ, ◌≤◌, ◌<◌, String, true, false, none, some, ◌≡◌, ◌↔◌, ◌⊎◌, inl, inr, arith, is_some, or_else,
  Option-cases, Bool-cases, ◌==◌, eq_nat, ◌||◌,
}
use freellm_gateway.Errors.{
  is_retriable_kind, network_error, unauthorized, auth_failure, balance_insufficient,
  provider_unavailable,
}
use freellm_gateway.Classify.{
  ClassifierInput, ClassifiedError, combined_text, classify_transport, classify_rejected,
  classify_success, classify_status, classify_routing_error,
}

-- The marks of a classification agree: it is retriable exactly if its kind is, it has a hint for the
-- backoff exactly then (from half a second to five seconds), and only these five kinds bench a whole
-- provider.
pub record Agrees (c : ClassifiedError) : Type 0 where
  pub by_kind : c.retriable ≡ is_retriable_kind c.kind
  pub hinted : is_some c.hint_ms ≡ c.retriable
  pub benched :
      (c.provider_level ≡ false)
      ⊎ (c.kind ≡ network_error)
      ⊎ (c.kind ≡ unauthorized)
      ⊎ (c.kind ≡ auth_failure)
      ⊎ (c.kind ≡ balance_insufficient)
      ⊎ (c.kind ≡ provider_unavailable)
  pub hint_bounds :
      (c.hint_ms ≡ none) ⊎ ((500 ≤ or_else c.hint_ms 0) × (or_else c.hint_ms 0 ≤ 5000))

classify_transport-Agrees :
    (input : ClassifierInput) (text : String) → Agrees (classify_transport input text)
unfolding classify_transport is_retriable_kind
classify_transport-Agrees input text = record {
  by_kind = ground arith;
  hinted = ground arith;
  benched = ground arith;
  hint_bounds = ground arith;
}

classify_rejected-Agrees : (text : String) → Agrees (classify_rejected text)
unfolding classify_rejected is_retriable_kind
classify_rejected-Agrees text = record {
  by_kind = ground arith;
  hinted = ground arith;
  benched = ground arith;
  hint_bounds = ground arith;
}

classify_success-Agrees : (text : String) → Agrees (classify_success text)
unfolding classify_success is_retriable_kind
classify_success-Agrees text = record {
  by_kind = ground arith;
  hinted = ground arith;
  benched = ground arith;
  hint_bounds = ground arith;
}

classify_status-Agrees : (status : ℕ) (text : String) → Agrees (classify_status status text)
unfolding classify_status classify_success is_retriable_kind
classify_status-Agrees status text = record {
  by_kind = ground arith;
  hinted = ground arith;
  benched = ground arith;
  hint_bounds = ground arith;
}

-- Every classification agrees with itself: retriable as its kind is, with a hint of 500 to 5000 ms
-- exactly if retriable, and at provider level only for five kinds.
classify_routing_error-Agrees : (input : ClassifierInput) → Agrees (classify_routing_error input)
unfolding classify_routing_error
classify_routing_error-Agrees input = elim (Option-cases input.status) [
  | inl e ↦ rw (e, classify_routing_error) (classify_transport-Agrees input _)
  | inr (s, e) ↦ elim (Bool-cases (s == 400 || s == 422)) [
    | inl r ↦ rw (e, classify_routing_error, r) (classify_rejected-Agrees _)
    | inr n ↦ rw (e, classify_routing_error, n) (classify_status-Agrees s _)
  ]
]

-- Of the answers that have a status, exactly these are classified as retriable: 408, 425, 429,
-- every 5xx, and a 2xx whose text says that the body is invalid, malformed or did not parse.
pub retriable_status_iff :
    (input : ClassifierInput) (s : ℕ)
    → input.status ≡ some s
    → ((classify_routing_error input).retriable ≡ true) ↔ (
        (s ≡ 408)
        ⊎ (s ≡ 425)
        ⊎ (s ≡ 429)
        ⊎ ((500 ≤ s) × (s < 600))
        ⊎ ((200 ≤ s) × (s < 300) × ((classify_success (combined_text input)).retriable ≡ true)))
unfolding classify_routing_error classify_status classify_rejected
retriable_status_iff input s e = rw (e, classify_routing_error) (ground arith, ground arith)
