-- ===== src/Executor/Attempt.antt =====
-- One round of the loop of `execute`, with `evalRetriable`, `sleepBetweenAttempts`, `runStream`,
-- `fromOutcome`, `makeAttempt` and `handleFailure`.
use mathlib.Core.Option
use freellm_gateway.Base.{
  ℕ, ◌+◌, ◌-◌, ◌*◌, String, Bool, true, false, not, Option, none, some, List, [], ◌∷◌, ◌++◌, ◌==◌,
  eq_string, if◌then◌else◌, or_else, ltb,
}
use freellm_gateway.Errors.{kind_name, is_retriable_kind}
use freellm_gateway.Errors.Names.{to_kind}
use freellm_gateway.Number.{Number}
use freellm_gateway.Retry.{compute_backoff, should_retry}
use freellm_gateway.Cooldown.{Scope, model, provider, check, register_failure, register_success}
use freellm_gateway.Classify.{classify_routing_error}
use freellm_gateway.Router.Decide.{Candidate}
use freellm_gateway.Executor.{
  CallOutcome, Answer, returned, threw, Provider, Payload, response, chunks, Place, model_gate,
  provider_gate, started, settled, model_outcome, provider_outcome, pause, Env, AttemptReport,
  Sample, ChatCompletionRequest, Event, called, sampled, slept, ExecutorOptions, State,
}

-- `errorKind ? { errorKind } : {}`: an empty text is dropped.
abbrev pub truthy : Option String → Option String
truthy none = none
truthy (some s) = if s == "" then none else some s

-- `peekFirst`: whether a chunk came, and an iterator over all the chunks, the first included.
unfoldable pub peek_first : {C : Type 0} → List C → Bool × List C
peek_first [] = (false, [])
peek_first (c ∷ cs) = (true, c ∷ cs)

-- What the round ends in: `continue`, `break` or `return`.
pub data Verdict (Body Chunk : Type 0) : Type 0 where
  continues breaks : Verdict Body Chunk
  returns : Payload Body Chunk → Verdict Body Chunk

module _ (N : Number) where
  open N use {F}

  unfoldable pub from_outcome : ℕ → Candidate N → CallOutcome → Bool → AttemptReport N
  from_outcome ordinal cand outcome ok = record {
    ordinal = ordinal;
    model_id = cand.model.model_id;
    provider_slug = cand.model.provider_slug;
    upstream_model = cand.model.upstream_id;
    duration_ms = outcome.duration_ms;
    first_token_ms = outcome.first_token_ms;
    ok = ok;
    status = outcome.status;
    error_kind = truthy outcome.error_kind;
    error_message = truthy outcome.error_message;
    cooldown_triggered = not ok;
    rationale = cand.rationale;
    score = cand.score.composite;
    score_explanation = cand.score;
  }

  unfoldable pub make_attempt :
      ℕ → Candidate N → ℕ → Option ℕ → String → String → Bool → AttemptReport N
  make_attempt ordinal cand duration_ms status error_kind error_message cooldown_triggered =
      record {
        ordinal = ordinal;
        model_id = cand.model.model_id;
        provider_slug = cand.model.provider_slug;
        upstream_model = cand.model.upstream_id;
        duration_ms = duration_ms;
        first_token_ms = none;
        ok = false;
        status = status;
        error_kind = some error_kind;
        error_message = some error_message;
        cooldown_triggered = cooldown_triggered;
        rationale = cand.rationale;
        score = cand.score.composite;
        score_explanation = cand.score;
      }

  module _ {S Body Chunk : Type 0} (env : Env N Body Chunk) (opts : ExecutorOptions N S) where
    abbrev pub emit : Event N → State N S → State N S
    emit e st = record st { events = st.events ++ e ∷ [] }

    unfoldable pub eval_retriable : Option ℕ → Option String → Option Bool → Bool
    eval_retriable status kind fallback =
        let default_retriable = or_else fallback (is_retriable_kind (to_kind kind)) in
        elim opts.retry_policy [
          | none ↦ default_retriable
          | some policy ↦ should_retry policy status kind default_retriable
        ]

    unfoldable pub sleep_between_attempts : ℕ → State N S → State N S
    sleep_between_attempts i st = elim opts.retry_policy [
      | none ↦ st
      | some policy ↦
          let ms = compute_backoff (i + 1) policy (env.random i pause) in
          if ltb 0 ms then emit (slept ms) st else st
    ]

    -- `void this.opts.scoreUpdater?.recordAttempt(…)`
    abbrev pub record_sample : Candidate N → Sample N → State N S → State N S
    record_sample cand sample st =
        if opts.scores then emit (sampled cand.model.model_id sample) st else st

    abbrev pub fail_key : ℕ → Place → Scope → String → String → Option ℕ → State N S → State N S
    fail_key i place scope key reason hint st = record st {
      cooldowns =
          (register_failure opts.cooldown_store opts.cooldown (env.clock i place)
            (env.random i place)
            (record { scope = scope; key = key; reason = reason; hint_ms = hint }) st.cooldowns).0;
    }

    unfoldable pub handle_failure : ℕ → Candidate N → CallOutcome → State N S → State N S
    handle_failure i cand outcome st =
        let classified = classify_routing_error (record {
          status = outcome.status;
          message = some (or_else outcome.error_message "");
          body_snippet = none;
          cause_name = none;
          errno = none;
        }) in
        let reason = kind_name classified.kind in
        let benched =
          fail_key i model_outcome model cand.model.model_id reason classified.hint_ms st in
        let both =
          if classified.provider_level
          then fail_key i provider_outcome provider cand.model.provider_slug reason
              (Option.map (λ h. h * 2) classified.hint_ms) benched
          else benched in
        record_sample cand
          (record {
            ok = false;
            duration_ms = 0;
            first_token_ms = none;
            kind = some classified.kind;
          })
          both

    unfoldable pub handle_success : ℕ → Candidate N → CallOutcome → Bool → State N S → State N S
    handle_success i cand outcome streaming st =
        let model_open =
          register_success opts.cooldown_store opts.cooldown (env.clock i model_outcome) model
            cand.model.model_id st.cooldowns in
        let both_open =
          register_success opts.cooldown_store opts.cooldown (env.clock i provider_outcome) provider
            cand.model.provider_slug model_open in
        record_sample cand
          (record {
            ok = true;
            duration_ms = outcome.duration_ms;
            first_token_ms = if streaming then outcome.first_token_ms else none;
            kind = none;
          })
          (record st { cooldowns = both_open })

    abbrev pub Round : Type 0
    Round = AttemptReport N × State N S × Verdict Body Chunk

    -- The two branches of the `try` are alike but for the call and for what is returned. What throws
    -- in it is the call: the cooldown store does not, so that the second report which the `catch`
    -- adds when the store throws is left out.
    unfoldable pub settle :
        {A : Type 0}
        → ℕ
        → Candidate N
        → Bool
        → (A → Payload Body Chunk)
        → Answer A
        → State N S
        → Round
    settle i cand streaming payload (returned outcome content) st =
        if outcome.ok
        then (
          from_outcome (i + 1) cand outcome true,
          handle_success i cand outcome streaming st,
          returns (payload content),
        )
        else if eval_retriable outcome.status outcome.error_kind none
        then (
          from_outcome (i + 1) cand outcome false,
          sleep_between_attempts i (handle_failure i cand outcome st),
          continues,
        )
        else (from_outcome (i + 1) cand outcome false, handle_failure i cand outcome st, breaks)
    settle i cand streaming payload (threw message name) st =
        let classified = classify_routing_error (record {
          status = none;
          message = some message;
          body_snippet = none;
          cause_name = some name;
          errno = none;
        }) in
        let reason = kind_name classified.kind in
        let report =
          make_attempt (i + 1) cand (env.clock i settled - env.clock i started) none reason
            classified.reason true in
        let benched =
          fail_key i model_outcome model cand.model.model_id reason classified.hint_ms st in
        if eval_retriable none (some reason) (some classified.retriable)
        then (report, sleep_between_attempts i benched, continues)
        else (report, benched, breaks)

    -- The request is passed on unchanged: the candidate says only which provider is asked.
    unfoldable pub call_provider :
        ℕ → Candidate N → ChatCompletionRequest → Bool → Provider Body Chunk → State N S → Round
    call_provider i cand request streaming p st =
        let st' = emit (called cand.model.provider_slug request) st in
        if streaming
        then settle i cand true (λ cs. chunks (peek_first cs).1) (p.stream i) st'
        else settle i cand false response (p.complete i) st'

    abbrev pub gate : ℕ → Place → Scope → String → State N S → State N S × Option String
    gate i place scope key st =
        let (s, d) =
          check opts.cooldown_store opts.cooldown (env.clock i place) scope key st.cooldowns in
        (
          record st { cooldowns = s },
          if d.allowed then none else some (or_else d.reason "cooldown"),
        )

    unfoldable pub attempt : ℕ → Candidate N → ChatCompletionRequest → Bool → State N S → Round
    attempt i cand request streaming st = elim (env.registry cand.model.provider_slug) [
      | none ↦ (
        make_attempt (i + 1) cand 0 none "unknown" "provider not registered" false,
        st,
        continues,
      )
      | some p ↦
          let (st₁, model_refusal) = gate i model_gate model cand.model.model_id st in
          elim model_refusal [
            | some why ↦
                (make_attempt (i + 1) cand 0 none "cooldown_active" why false, st₁, continues)
            | none ↦
                let (st₂, provider_refusal) =
                  gate i provider_gate provider cand.model.provider_slug st₁ in
                elim provider_refusal [
                  | some why ↦
                      (make_attempt (i + 1) cand 0 none "cooldown_active" why false, st₂, continues)
                  | none ↦ call_provider i cand request streaming p st₂
                ]
          ]
    ]
