-- ===== src/Executor/Apart.antt =====
-- What a round of the executor leaves of a key of the cooldowns that is not one of its candidate.
use freellm_gateway.Base.{ℕ, String, Bool, true, false, Option, ◌≡◌, ◌∙◌, Option-cases, inl, inr}
use freellm_gateway.Number.{Number}
use freellm_gateway.Cooldown.{
  Scope, model, provider, CooldownRecord, RegisterFailureInput, check, register_success,
}
use freellm_gateway.Cooldown.Contract.{Elsewhere, Lawful}
use freellm_gateway.Cooldown.Gate.{register_failure-Inv, register_success-Inv}
use freellm_gateway.Cooldown.Tally.{frame, check-Elsewhere, register_success-Elsewhere}
use freellm_gateway.Cooldown.Refined.{check-ask}
use freellm_gateway.Router.Decide.{Candidate}
use freellm_gateway.Executor.{
  ChatCompletionRequest, Answer, returned, threw, CallOutcome, Payload, Provider, Env, Place,
  ExecutorOptions, State, Sample, model_gate, provider_gate, model_outcome, provider_outcome,
}
use freellm_gateway.Executor.Attempt.{
  Round, settle, call_provider, handle_success, handle_failure, sleep_between_attempts, gate,
  attempt, record_sample, fail_key,
}
use freellm_gateway.Executor.Ways.{by_if, by_registry, by_gate}

module _ (N : Number) {S Body Chunk : Type 0} {Inv : S → Type 0} (env : Env N Body Chunk)
    (opts : ExecutorOptions N S) (lawful : Lawful opts.cooldown_store Inv) (at : Scope)
    (name : String) (found : Option CooldownRecord) where
  -- What is found under the key.
  abbrev pub Finds : S → Type 0
  Finds s = Inv s × (opts.cooldown_store.find_active at name s ≡ found)

  abbrev pub Keeps : State N S → Type 0
  Keeps st = Finds st.cooldowns

  abbrev Keeps₁ : Round N env opts → Type 0
  Keeps₁ r = Keeps r.1

  -- The candidate's own keys are others.
  abbrev pub IsApart : Candidate N → Type 0
  IsApart c =
      Elsewhere model c.model.model_id at name × Elsewhere provider c.model.provider_slug at name

  record_sample-Keeps :
      (c : Candidate N) (s : Sample N) (st : State N S)
      → Keeps st
      → Keeps (record_sample N env opts c s st)
  record_sample-Keeps c s st h = by_if Keeps opts.scores _ _ h h

  fail_key-Finds :
      (i : ℕ) (place : Place) (scope : Scope) (key reason : String) (hint : Option ℕ)
      (st : State N S)
      → Elsewhere scope key at name
      → Keeps st
      → Keeps (fail_key N env opts i place scope key reason hint st)
  fail_key-Finds i place scope key reason hint st far h =
      let input : RegisterFailureInput = record {
        scope = scope;
        key = key;
        reason = reason;
        hint_ms = hint;
      } in
      let now = env.clock i place in
      let store = opts.cooldown_store in
      let random = env.random i place in
      (
        register_failure-Inv store opts.cooldown lawful now random input st.cooldowns h.0,
        (frame store opts.cooldown lawful now random input at name st.cooldowns h.0 far).1 ∙ h.1,
      )

  success-Finds :
      (now : ℕ) (scope : Scope) (key : String) (s : S)
      → Elsewhere scope key at name
      → Finds s
      → Finds (register_success opts.cooldown_store opts.cooldown now scope key s)
  success-Finds now scope key s far h =
      let store = opts.cooldown_store in
      (
        register_success-Inv store opts.cooldown lawful now scope key s h.0,
        register_success-Elsewhere store opts.cooldown lawful now scope key at name s h.0 far ∙ h.1,
      )

  pub check-Finds :
      (now : ℕ) (scope : Scope) (key : String) (s : S)
      → Elsewhere scope key at name
      → Finds s
      → Finds (check opts.cooldown_store opts.cooldown now scope key s).0
  check-Finds now scope key s far h =
      let store = opts.cooldown_store in
      (
        (check-ask store opts.cooldown lawful now scope key s h.0).2,
        check-Elsewhere store opts.cooldown lawful now scope key at name s h.0 far ∙ h.1,
      )

  handle_failure-Keeps :
      (i : ℕ) (c : Candidate N) (o : CallOutcome) (st : State N S)
      → IsApart c
      → Keeps st
      → Keeps (handle_failure N env opts i c o st)
  unfolding handle_failure
  handle_failure-Keeps i c o st far h =
      let benched = fail_key-Finds i model_outcome model c.model.model_id _ _ st far.0 h in
      record_sample-Keeps c _ _ (
        by_if Keeps _ _ _
          (fail_key-Finds i provider_outcome provider c.model.provider_slug _ _
            (record st { cooldowns = _ }) far.1 benched)
          benched)

  handle_success-Keeps :
      (i : ℕ) (c : Candidate N) (o : CallOutcome) (b : Bool) (st : State N S)
      → IsApart c
      → Keeps st
      → Keeps (handle_success N env opts i c o b st)
  unfolding handle_success
  handle_success-Keeps i c o b st far h = record_sample-Keeps c _ _ (
      success-Finds (env.clock i provider_outcome) provider c.model.provider_slug _ far.1
        (success-Finds (env.clock i model_outcome) model c.model.model_id st.cooldowns far.0 h))

  sleep-Keeps : (i : ℕ) (st : State N S) → Keeps st → Keeps (sleep_between_attempts N env opts i st)
  unfolding sleep_between_attempts
  sleep-Keeps i st h = elim (Option-cases opts.retry_policy) [
    | inl e ↦ rw e h
    | inr (policy, e) ↦ rw e (by_if Keeps _ _ _ h h)
  ]

  settle-Keeps :
      {A : Type 0} (i : ℕ) (c : Candidate N) (b : Bool) (pay : A → Payload Body Chunk)
      (a : Answer A) (st : State N S)
      → IsApart c
      → Keeps st
      → Keeps (settle N env opts i c b pay a st).1
  unfolding settle
  settle-Keeps i c b pay (returned o x) st far h =
      let failed = handle_failure-Keeps i c o st far h in
      by_if Keeps₁ o.ok _ _ (handle_success-Keeps i c o b st far h)
        (by_if Keeps₁ _ _ _ (sleep-Keeps i (handle_failure N env opts i c o st) failed) failed)
  settle-Keeps i c b pay (threw m n) st far h =
      let benched = fail_key-Finds i model_outcome model c.model.model_id _ _ st far.0 h in
      by_if Keeps₁ _ _ _ (sleep-Keeps i (record st { cooldowns = _ }) benched) benched

  call_provider-Keeps :
      (i : ℕ) (c : Candidate N) (asked : ChatCompletionRequest) (b : Bool) (p : Provider Body Chunk)
      (st : State N S)
      → IsApart c
      → Keeps st
      → Keeps (call_provider N env opts i c asked b p st).1
  unfolding call_provider
  call_provider-Keeps i c asked true p st far h = settle-Keeps i c true _ (p.stream i) _ far h
  call_provider-Keeps i c asked false p st far h = settle-Keeps i c false _ (p.complete i) _ far h

  -- A round of another candidate leaves the key as it is.
  pub attempt-Keeps :
      (i : ℕ) (c : Candidate N) (asked : ChatCompletionRequest) (b : Bool) (st : State N S)
      → IsApart c
      → Keeps st
      → Keeps (attempt N env opts i c asked b st).1
  unfolding attempt
  attempt-Keeps i c asked b st far h =
      by_registry Keeps₁ (env.registry c.model.provider_slug) _ _ h (λ p.
        let first =
          check-Finds (env.clock i model_gate) model c.model.model_id st.cooldowns far.0 h in
        let second =
          check-Finds (env.clock i provider_gate) provider c.model.provider_slug _ far.1 first in
        by_gate Keeps₁ (gate N env opts i model_gate model c.model.model_id st).1 _ _
          (by_gate Keeps₁
            (gate N env opts i provider_gate provider c.model.provider_slug
              (gate N env opts i model_gate model c.model.model_id st).0).1
            _ _ (call_provider-Keeps i c asked b p _ far second) (λ why. second))
          (λ why. first))
