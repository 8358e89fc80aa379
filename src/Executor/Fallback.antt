-- ===== src/Executor/Fallback.antt =====
-- What a round of the executor ends in: a failure that gives way to the next candidate, an answer of a
-- candidate that is free.
use freellm_gateway.Base.{
  ℕ, String, Bool, true, false, none, some, ◌≡◌, ◌⊎◌, inl, inr, Option-cases,
}
use freellm_gateway.Number.{Number}
use freellm_gateway.Errors.{kind_name}
use freellm_gateway.Classify.{ClassifiedError, classify_routing_error}
use freellm_gateway.Cooldown.{model, provider}
use freellm_gateway.Cooldown.Gate.{check_free}
use freellm_gateway.Router.Decide.{Candidate}
use freellm_gateway.Executor.{
  ChatCompletionRequest, Answer, returned, threw, Payload, Provider, Env, ExecutorOptions, State,
  model_gate, provider_gate,
}
use freellm_gateway.Executor.Attempt.{
  Round, Verdict, continues, breaks, returns, attempt, settle, call_provider, gate, eval_retriable,
}
use freellm_gateway.Executor.Ways.{by_if, by_gate}

module _ (N : Number) {S Body Chunk : Type 0} (env : Env N Body Chunk)
    (opts : ExecutorOptions N S) where
  abbrev IsOk : {A : Type 0} → Answer A → Type 0
  IsOk (returned o x) = o.ok ≡ true
  IsOk (threw message name) = ⊥

  -- What a thrown error is classified as.
  abbrev thrown_as : String → String → ClassifiedError
  thrown_as message name = classify_routing_error (record {
    status = none;
    message = some message;
    body_snippet = none;
    cause_name = some name;
    errno = none;
  })

  -- The retry policy, or the default where there is none, has the next candidate tried after the
  -- answer, if it is a failure.
  abbrev GoesOn : {A : Type 0} → Answer A → Type 0
  GoesOn (returned o x) =
      (o.ok ≡ true) ⊎ (eval_retriable N env opts o.status o.error_kind none ≡ true)
  GoesOn (threw message name) =
      eval_retriable N env opts none (some (kind_name (thrown_as message name).kind))
        (some (thrown_as message name).retriable)
      ≡ true

  -- The provider's answer at the attempt is a success.
  abbrev pub Delivers : ℕ → Bool → Provider Body Chunk → Type 0
  Delivers i true p = IsOk (p.stream i)
  Delivers i false p = IsOk (p.complete i)

  abbrev pub Falls : ℕ → Bool → Provider Body Chunk → Type 0
  Falls i true p = GoesOn (p.stream i)
  Falls i false p = GoesOn (p.complete i)

  abbrev pub GoesOn₁ : Verdict Body Chunk → Type 0
  GoesOn₁ continues = Unit
  GoesOn₁ breaks = ⊥
  GoesOn₁ (returns p) = Unit

  abbrev GoesOn₂ : Round N env opts → Type 0
  GoesOn₂ r = GoesOn₁ r.2

  settle-GoesOn :
      {A : Type 0} (i : ℕ) (c : Candidate N) (b : Bool) (pay : A → Payload Body Chunk)
      (a : Answer A) (st : State N S)
      → GoesOn a
      → GoesOn₂ (settle N env opts i c b pay a st)
  unfolding settle
  settle-GoesOn i c b pay (returned o x) st (inl ok) = rw (ok, settle) tt
  settle-GoesOn i c b pay (returned o x) st (inr retried) =
      by_if GoesOn₂ o.ok _ _ tt (rw (retried, settle) tt)
  settle-GoesOn i c b pay (threw m n) st retried = rw (retried, settle) tt

  call_provider-GoesOn :
      (i : ℕ) (c : Candidate N) (asked : ChatCompletionRequest) (b : Bool) (p : Provider Body Chunk)
      (st : State N S)
      → Falls i b p
      → GoesOn₂ (call_provider N env opts i c asked b p st)
  unfolding call_provider
  call_provider-GoesOn i c asked true p st h = settle-GoesOn i c true _ (p.stream i) _ h
  call_provider-GoesOn i c asked false p st h = settle-GoesOn i c false _ (p.complete i) _ h

  pub attempt-GoesOn :
      (i : ℕ) (c : Candidate N) (asked : ChatCompletionRequest) (b : Bool) (st : State N S)
      → ((p : Provider Body Chunk) → env.registry c.model.provider_slug ≡ some p → Falls i b p)
      → GoesOn₂ (attempt N env opts i c asked b st)
  unfolding attempt
  attempt-GoesOn i c asked b st falls = elim (Option-cases (env.registry c.model.provider_slug)) [
    | inl e ↦ rw (e, attempt) tt
    | inr (p, e) ↦
        rw (e, attempt)
          (by_gate GoesOn₂ (gate N env opts i model_gate model c.model.model_id st).1 _ _
            (by_gate GoesOn₂
              (gate N env opts i provider_gate provider c.model.provider_slug
                (gate N env opts i model_gate model c.model.model_id st).0).1
              _ _ (call_provider-GoesOn i c asked b p _ (falls p e)) (λ why. tt))
            (λ why. tt))
  ]

  abbrev pub Returns : Verdict Body Chunk → Type 0
  Returns continues = ⊥
  Returns breaks = ⊥
  Returns (returns p) = Unit

  abbrev Returns₁ : Round N env opts → Type 0
  Returns₁ r = Returns r.2

  settle-Returns :
      {A : Type 0} (i : ℕ) (c : Candidate N) (b : Bool) (pay : A → Payload Body Chunk)
      (a : Answer A) (st : State N S)
      → IsOk a
      → Returns₁ (settle N env opts i c b pay a st)
  unfolding settle
  settle-Returns i c b pay (returned o x) st ok = rw (ok, settle) tt
  settle-Returns i c b pay (threw m n) st ok = absurd ok

  call_provider-Returns :
      (i : ℕ) (c : Candidate N) (asked : ChatCompletionRequest) (b : Bool) (p : Provider Body Chunk)
      (st : State N S)
      → Delivers i b p
      → Returns₁ (call_provider N env opts i c asked b p st)
  unfolding call_provider
  call_provider-Returns i c asked true p st h = settle-Returns i c true _ (p.stream i) _ h
  call_provider-Returns i c asked false p st h = settle-Returns i c false _ (p.complete i) _ h

  -- Neither the model nor the provider of the candidate has a cooldown.
  abbrev pub IsFree : Candidate N → S → Type 0
  IsFree c s =
      (opts.cooldown_store.find_active model c.model.model_id s ≡ none)
      × (opts.cooldown_store.find_active provider c.model.provider_slug s ≡ none)

  pub attempt-Returns :
      (i : ℕ) (c : Candidate N) (asked : ChatCompletionRequest) (b : Bool) (st : State N S)
      (p : Provider Body Chunk)
      → env.registry c.model.provider_slug ≡ some p
      → Delivers i b p
      → IsFree c st.cooldowns
      → Returns₁ (attempt N env opts i c asked b st)
  unfolding attempt
  attempt-Returns i c asked b st p known delivers (model_free, provider_free) =
      let store = opts.cooldown_store in
      let (one, _, same) =
        check_free store opts.cooldown model c.model.model_id (env.clock i model_gate) st.cooldowns
          model_free in
      let (two, _, _) =
        check_free store opts.cooldown provider c.model.provider_slug (env.clock i provider_gate)
          st.cooldowns provider_free in
      rw (known, attempt, one, same, two) (call_provider-Returns i c asked b p _ delivers)
