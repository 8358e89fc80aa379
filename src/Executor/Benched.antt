-- ===== src/Executor/Benched.antt =====
-- A provider that is benched when a request comes in.
use freellm_gateway.Base.{
  ℕ, suc, ◌<◌, String, Bool, true, false, some, List, [], ◌∷◌, ◌≡◌, ◌≢◌, arith, refl, ◌∙◌, sym, ◌⊎◌,
  inl, inr, All, All-append, take, Bool-cases, or_else, ◌==◌, eq_string, true≢false,
}
use freellm_gateway.Number.{Number}
use freellm_gateway.Cooldown.{model, provider, CooldownRecord, check}
use freellm_gateway.Cooldown.Contract.{Elsewhere, Lawful}
use freellm_gateway.Cooldown.Gate.{check_active, check_half_open}
use freellm_gateway.Router.{PoolModel, RoutingMode}
use freellm_gateway.Router.Decide.{Candidate, decide}
use freellm_gateway.Executor.{
  ChatCompletionRequest, Event, called, sampled, slept, persisted, Env, Place, ExecuteOptions,
  ExecutorOptions, State, AttemptReport, model_gate, provider_gate,
}
use freellm_gateway.Executor.Attempt.{Round, attempt, gate}
use freellm_gateway.Executor.Ways.{by_registry, by_gate, by_verdict}
use freellm_gateway.Executor.Loop.{Walked, walk, execute, conclude, loop_limit}
use freellm_gateway.Executor.Apart.{Finds, check-Finds, attempt-Keeps}
use freellm_gateway.Executor.Upstream.{Calls, Clean, attempt-Clean, persist_attempts-Clean}

-- The record closes its key at every time at which the clock is read.
abbrev pub Closes : (ℕ → Place → ℕ) → CooldownRecord → Type 0
Closes clock y = (y.half_open ≡ true) ⊎ ((i : ℕ) (place : Place) → clock i place < y.expires_at)

module _ (N : Number) where
  open N use {F}

  -- Not a call of the provider.
  abbrev pub Avoids : String → Event N → Type 0
  Avoids slug (called s upstream) = s ≢ slug
  Avoids slug _ = Unit

  module _ {S Body Chunk : Type 0} {Inv : S → Type 0} (env : Env N Body Chunk)
      (opts : ExecutorOptions N S) (lawful : Lawful opts.cooldown_store Inv) (slug : String)
      (y : CooldownRecord) (closes : Closes env.clock y) (asked : ChatCompletionRequest) where
    abbrev IsOther : PoolModel F → Type 0
    IsOther m = m.provider_slug ≢ slug

    abbrev Cool : S → Type 0
    Cool s = Finds N env opts lawful provider slug (some y) s

    -- The record is where it was, and all calls went to models of other providers.
    abbrev Kept : State N S → Type 0
    Kept st = Cool st.cooldowns × Clean N env opts IsOther asked st

    abbrev Kept₁ : Round N env opts → Type 0
    Kept₁ r = Kept r.1

    model_key : (id : String) → Elsewhere model id provider slug
    model_key id = inl (ground arith)

    -- The gate refuses the provider.
    refused :
        (i : ℕ) (key : String) (s : S)
        → key ≡ slug
        → Cool s
        → ((check opts.cooldown_store opts.cooldown
              (env.clock i provider_gate)
              provider
              key
              s).1.allowed
            ≡ false)
          × ((check opts.cooldown_store opts.cooldown (env.clock i provider_gate) provider key s).0
              ≡ s)
    refused i key s own h = rw own (elim closes [
      | inl out ↦
          check_half_open opts.cooldown_store opts.cooldown provider slug
            (env.clock i provider_gate) s y h.1 out
      | inr before ↦
          check_active opts.cooldown_store opts.cooldown provider slug (env.clock i provider_gate) s
            y h.1 (before i provider_gate)
    ])

    attempt_own :
        (i : ℕ) (c : Candidate N) (b : Bool) (st : State N S)
        → c.model.provider_slug ≡ slug
        → Kept st
        → Kept (attempt N env opts i c asked b st).1
    unfolding attempt
    attempt_own i c b st own h = by_registry Kept₁ (env.registry c.model.provider_slug) _ _ h (λ p.
        let first =
          check-Finds N env opts lawful provider slug (some y) (env.clock i model_gate) model
            c.model.model_id st.cooldowns (model_key c.model.model_id) h.0 in
        let (shut, same) = refused i c.model.provider_slug _ own first in
        by_gate Kept₁ (gate N env opts i model_gate model c.model.model_id st).1 _ _
          (rw (shut, same) (first, h.1)) (λ why. (first, h.1)))

    attempt-Kept :
        (i : ℕ) (c : Candidate N) (b : Bool) (st : State N S)
        → Kept st
        → Kept (attempt N env opts i c asked b st).1
    attempt-Kept i c b st h = elim (Bool-cases (c.model.provider_slug == slug)) [
      | inl own ↦ attempt_own i c b st ((eq_string.agree_iff c.model.provider_slug slug).0 own) h
      | inr other ↦
          let apart = λ (e : c.model.provider_slug ≡ slug).
            true≢false (sym ((eq_string.agree_iff c.model.provider_slug slug).1 e) ∙ other) in
          (
            attempt-Keeps N env opts lawful provider slug (some y) i c asked b st
                (model_key c.model.model_id, inr apart) h.0,
            attempt-Clean N env opts IsOther asked i c b st apart h.1,
          )
    ]

    walk-Kept :
        (i : ℕ) (cs : List (Candidate N)) (b : Bool) (as' : List (AttemptReport N)) (st : State N S)
        → Kept st
        → Kept (walk N env opts i cs asked b as' st).state
    unfolding walk
    walk-Kept i [] b as' st h = h
    walk-Kept i (c ∷ cs) b as' st h =
        let next = attempt-Kept i c b st h in
        by_verdict (λ (w : Walked N env opts). Kept w.state) (attempt N env opts i c asked b st).2 _
          _ _ (λ _. walk-Kept (suc i) cs b _ _ next) (λ _. next) (λ p _. next)

    conclude-Kept :
        (id : String) (args : ExecuteOptions N) (mode : RoutingMode) (w : Walked N env opts)
        → Kept w.state
        → Kept (conclude N env opts id args mode w).0
    unfolding conclude
    conclude-Kept id args mode w h = (
      h.0,
      All-append (Calls N asked IsOther) w.state.events _ h.1
          (persist_attempts-Clean N env opts IsOther asked id w.attempts args),
    )

    Clean-Avoids : (es : List (Event N)) → All (Calls N asked IsOther) es → All (Avoids slug) es
    Clean-Avoids [] h = tt
    Clean-Avoids (called s upstream ∷ es) h =
        let (m, other, same, _) = h.0 in (λ e. other (sym same ∙ e), Clean-Avoids es h.1)
    Clean-Avoids (sampled id s ∷ es) h = (tt, Clean-Avoids es h.1)
    Clean-Avoids (slept ms ∷ es) h = (tt, Clean-Avoids es h.1)
    Clean-Avoids (persisted l ∷ es) h = (tt, Clean-Avoids es h.1)

  -- A provider whose key is closed when a request comes in, by a probe that is out or by a backoff
  -- that outlasts the request, is not called, whatever the router decides and the other providers
  -- answer; and its record in the store is afterwards what it was. This holds over any store that
  -- keeps the contract.
  pub execute-Avoids :
      {S Body Chunk : Type 0} {Inv : S → Type 0} (env : Env N Body Chunk)
      (opts : ExecutorOptions N S)
      → Lawful opts.cooldown_store Inv
      → (args : ExecuteOptions N) (s : S) (slug : String) (y : CooldownRecord) → Inv s
      → opts.cooldown_store.find_active provider slug s ≡ some y
      → Closes env.clock y
      → let after = (execute N env opts args (record { cooldowns = s; events = [] })).0 in
        All (Avoids slug) after.events
        × (opts.cooldown_store.find_active provider slug after.cooldowns ≡ some y)
  unfolding execute conclude
  execute-Avoids {S = S} env opts lawful args s slug y inv benched closes =
      let (kept, quiet) = listed (decide N env.draws args.pool args.ctx).candidates refl in
      (Clean-Avoids env opts lawful slug y closes args.request _ quiet, kept.1)
    where
      listed :
          (cs : List (Candidate N))
          → cs ≡ (decide N env.draws args.pool args.ctx).candidates
          → Kept env opts lawful slug y closes args.request
              (execute N env opts args (record { cooldowns = s; events = [] })).0
      listed [] e = rw (← e, execute) ((inv, benched), tt)
      listed (c ∷ cs) e =
          let cands = take (loop_limit N env opts (c ∷ cs)) (c ∷ cs) in
          let start : State N S = record { cooldowns = s; events = [] } in
          rw (← e, execute)
            (conclude-Kept env opts lawful slug y closes args.request
              (or_else args.request_id env.new_request_id) args
              (decide N env.draws args.pool args.ctx).mode
              (walk N env opts 0 cands args.request args.streaming [] start)
              (walk-Kept env opts lawful slug y closes args.request 0 cands args.streaming [] start
                ((inv, benched), tt)))
