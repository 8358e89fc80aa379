-- ===== src/Executor/Upstream.antt =====
-- Which upstreams the executor calls.
use freellm_gateway.Base.{
  ℕ, suc, ◌+◌, String, Bool, true, false, Option, none, some, List, [], ◌∷◌, ◌≡◌, refl, inl, inr,
  arith, All, All-append, All-take, take, Option-cases,
}
use freellm_gateway.Number.{Number}
use freellm_gateway.Retry.{compute_backoff}
use freellm_gateway.Cooldown.{model, provider}
use freellm_gateway.Router.{PoolModel, RoutingMode}
use freellm_gateway.Router.Decide.{Candidate, decide}
use freellm_gateway.Router.Safety.{IsAdmissible, decide-IsAdmissible}
use freellm_gateway.Executor.{
  ChatCompletionRequest, Answer, returned, threw, CallOutcome, Payload, Provider, Env, Event,
  called, sampled, slept, ExecuteOptions, ExecutorOptions, State, Sample, ExecuteResult, succeeded,
  failed, AttemptReport, model_gate, provider_gate, pause,
}
use freellm_gateway.Executor.Attempt.{
  Round, attempt, settle, call_provider, handle_success, handle_failure, sleep_between_attempts,
  gate, emit, record_sample,
}
use freellm_gateway.Executor.Ways.{by_if, by_registry, by_gate, by_verdict}
use freellm_gateway.Executor.Loop.{
  Walked, walk, persist_attempts, execute, conclude, loop_limit, fail,
}

module _ (N : Number) where
  open N use {F}

  -- A call goes to the provider of a model of which P holds, with the request that was asked.
  abbrev pub Calls : ChatCompletionRequest → (PoolModel F → Type 0) → Event N → Type 0
  Calls asked P (called slug request) =
      (m : PoolModel F) × P m × (slug ≡ m.provider_slug) × (request ≡ asked)
  Calls asked P _ = Unit

  module _ {S Body Chunk : Type 0} (env : Env N Body Chunk) (opts : ExecutorOptions N S)
      (P : PoolModel F → Type 0) (asked : ChatCompletionRequest) where
    abbrev pub Clean : State N S → Type 0
    Clean st = All (Calls asked P) st.events

    abbrev Clean₁ : Round N env opts → Type 0
    Clean₁ r = Clean r.1

    emit-Clean :
        (e : Event N) (st : State N S) → Calls asked P e → Clean st → Clean (emit N env opts e st)
    emit-Clean e st k h = All-append (Calls asked P) st.events (e ∷ []) h (k, tt)

    record_sample-Clean :
        (c : Candidate N) (s : Sample N) (st : State N S)
        → Clean st
        → Clean (record_sample N env opts c s st)
    record_sample-Clean c s st h = ground (arith, emit-Clean (sampled c.model.model_id s) st tt h)

    handle_failure-Clean :
        (i : ℕ) (c : Candidate N) (o : CallOutcome) (st : State N S)
        → Clean st
        → Clean (handle_failure N env opts i c o st)
    unfolding handle_failure
    handle_failure-Clean i c o st h = record_sample-Clean c _ _ (ground arith)

    handle_success-Clean :
        (i : ℕ) (c : Candidate N) (o : CallOutcome) (b : Bool) (st : State N S)
        → Clean st
        → Clean (handle_success N env opts i c o b st)
    unfolding handle_success
    handle_success-Clean i c o b st h = record_sample-Clean c _ _ h

    sleep-Clean :
        (i : ℕ) (st : State N S) → Clean st → Clean (sleep_between_attempts N env opts i st)
    unfolding sleep_between_attempts
    sleep-Clean i st h = elim (Option-cases opts.retry_policy) [
      | inl e ↦ rw e h
      | inr (policy, e) ↦ rw e (
          ground (
            arith,
            emit-Clean (slept (compute_backoff (i + 1) policy (env.random i pause))) st tt h,
          ))
    ]

    settle-Clean :
        {A : Type 0} (i : ℕ) (c : Candidate N) (b : Bool) (pay : A → Payload Body Chunk)
        (a : Answer A) (st : State N S)
        → Clean st
        → Clean (settle N env opts i c b pay a st).1
    unfolding settle
    settle-Clean i c b pay (returned o x) st h = ground (
      arith,
      handle_success-Clean i c o b st h,
      handle_failure-Clean i c o st h,
      sleep-Clean i (handle_failure N env opts i c o st) (handle_failure-Clean i c o st h),
    )
    settle-Clean i c b pay (threw m n) st h = by_if Clean₁ _ _ _ (sleep-Clean i _ h) h

    call_provider-Clean :
        (i : ℕ) (c : Candidate N) (b : Bool) (p : Provider Body Chunk) (st : State N S)
        → P c.model
        → Clean st
        → Clean (call_provider N env opts i c asked b p st).1
    unfolding call_provider
    call_provider-Clean i c true p st k h =
        settle-Clean i c true _ (p.stream i) _
          (All-append (Calls asked P) st.events _ h ((c.model, k, refl, refl), tt))
    call_provider-Clean i c false p st k h =
        settle-Clean i c false _ (p.complete i) _
          (All-append (Calls asked P) st.events _ h ((c.model, k, refl, refl), tt))

    pub attempt-Clean :
        (i : ℕ) (c : Candidate N) (b : Bool) (st : State N S)
        → P c.model
        → Clean st
        → Clean (attempt N env opts i c asked b st).1
    unfolding attempt
    attempt-Clean i c b st k h = by_registry Clean₁ (env.registry c.model.provider_slug) _ _ h (λ p.
        by_gate Clean₁ (gate N env opts i model_gate model c.model.model_id st).1 _ _
          (by_gate Clean₁
            (gate N env opts i provider_gate provider c.model.provider_slug
              (gate N env opts i model_gate model c.model.model_id st).0).1
            _ _ (call_provider-Clean i c b p _ k h) (λ why. h))
          (λ why. h))

    abbrev Found : Option (Candidate N × Payload Body Chunk) → Type 0
    Found none = Unit
    Found (some x) = P x.0.model

    abbrev CleanWalk : Walked N env opts → Type 0
    CleanWalk w = Clean w.state × Found w.found

    walk-Clean :
        (i : ℕ) (cs : List (Candidate N)) (b : Bool) (as' : List (AttemptReport N)) (st : State N S)
        → All (λ (c : Candidate N). P c.model) cs
        → Clean st
        → CleanWalk (walk N env opts i cs asked b as' st)
    unfolding walk
    walk-Clean i [] b as' st k h = (h, tt)
    walk-Clean i (c ∷ cs) b as' st k h =
        let next = attempt-Clean i c b st k.0 h in
        by_verdict CleanWalk (attempt N env opts i c asked b st).2 _ _ _
          (λ _. walk-Clean (suc i) cs b _ _ k.1 next) (λ _. (next, tt)) (λ p _. (next, k.0))

    -- A result that names an upstream names one of which P holds.
    abbrev pub Names : ExecuteResult N Body Chunk → Type 0
    Names (succeeded r) =
        (m : PoolModel F) × P m
        × (r.upstream_provider ≡ m.provider_slug)
        × (r.upstream_model ≡ m.upstream_id)
    Names (failed r) = Unit

    pub persist_attempts-Clean :
        (id : String) (as' : List (AttemptReport N)) (args : ExecuteOptions N)
        → All (Calls asked P) (persist_attempts N id as' args)
    unfolding persist_attempts
    persist_attempts-Clean id [] args = tt
    persist_attempts-Clean id (a ∷ as') args = (tt, tt)

    found-Names :
        (id : String) (args : ExecuteOptions N) (mode : RoutingMode) (w : Walked N env opts)
        (o : Option (Candidate N × Payload Body Chunk))
        → o ≡ w.found
        → Found o
        → Names (conclude N env opts id args mode w).1
    unfolding conclude fail
    found-Names id args mode w none e h = rw (← e) tt
    found-Names id args mode w (some x) e h = rw (← e) (x.0.model, h, refl, refl)

    conclude-Clean :
        (id : String) (args : ExecuteOptions N) (mode : RoutingMode) (w : Walked N env opts)
        → CleanWalk w
        → Clean (conclude N env opts id args mode w).0
          × Names (conclude N env opts id args mode w).1
    unfolding conclude
    conclude-Clean id args mode w (h, k) = (
      All-append (Calls asked P) w.state.events _ h (persist_attempts-Clean id w.attempts args),
      found-Names id args mode w w.found refl k,
    )

  All-take_candidates :
      (P : PoolModel F → Type 0) (n : ℕ) (cs : List (Candidate N))
      → All (λ (c : Candidate N). P c.model) cs
      → All (λ (c : Candidate N). P c.model) (take n cs)
  All-take_candidates P n cs h = All-take (λ (c : Candidate N). P c.model) n cs h

  -- Every provider that `execute` calls is that of a model that the request may use, in the sense of
  -- the router's guarantee, and is given the request that `execute` was given, with the model that
  -- this names whichever the candidate's is. The upstream that a success names is a model that the
  -- request may use. Whatever the providers answer, the stores hold and the draws are.
  pub execute-Calls :
      {S Body Chunk : Type 0} (env : Env N Body Chunk) (opts : ExecutorOptions N S)
      (args : ExecuteOptions N) (s : S)
      → All
          (Calls args.request (IsAdmissible N args.ctx args.pool))
          (execute N env opts args (record { cooldowns = s; events = [] })).0.events
        × Names env opts
            (IsAdmissible N args.ctx args.pool)
            args.request
            (execute N env opts args (record { cooldowns = s; events = [] })).1
  unfolding execute fail
  execute-Calls env opts args s =
      listed (decide N env.draws args.pool args.ctx).candidates refl
        (decide-IsAdmissible N env.draws args.pool args.ctx)
    where
      listed :
          (cs : List (Candidate N))
          → cs ≡ (decide N env.draws args.pool args.ctx).candidates
          → All (λ (c : Candidate N). IsAdmissible N args.ctx args.pool c.model) cs
          → All
              (Calls args.request (IsAdmissible N args.ctx args.pool))
              (execute N env opts args (record { cooldowns = s; events = [] })).0.events
            × Names env opts
                (IsAdmissible N args.ctx args.pool)
                args.request
                (execute N env opts args (record { cooldowns = s; events = [] })).1
      listed [] e h = rw (← e, execute) (tt, tt)
      listed (c ∷ cs) e h =
          rw (← e, execute)
            (conclude-Clean env opts (IsAdmissible N args.ctx args.pool) args.request _ args _ _ (
              walk-Clean env opts (IsAdmissible N args.ctx args.pool) args.request 0 _
                args.streaming [] _
                (All-take_candidates (IsAdmissible N args.ctx args.pool)
                  (loop_limit N env opts (c ∷ cs)) (c ∷ cs) h)
                tt))
