-- ===== src/Executor/Served.antt =====
-- When a request is served: the fallback from candidate to candidate.
use freellm_gateway.Base.{
  ℕ, zero, suc, ◌<◌, String, Bool, true, none, some, List, [], ◌∷◌, ◌++◌, ◌≡◌, ◌≢◌, refl, sym, inl,
  inr, arith, take, length, Option-cases, or_else, ap, ◌∙◌, is_some, true≢false,
}
use freellm_gateway.Number.{Number}
use freellm_gateway.Cooldown.{model, provider}
use freellm_gateway.Cooldown.Contract.{Lawful}
use freellm_gateway.Router.{RoutingMode}
use freellm_gateway.Router.Decide.{Candidate, decide}
use freellm_gateway.Executor.{
  ChatCompletionRequest, Provider, Env, AttemptReport, ExecuteOptions, ExecutorOptions, State,
  ExecuteSuccess, ExecuteResult, succeeded,
}
use freellm_gateway.Executor.Attempt.{attempt}
use freellm_gateway.Executor.Apart.{attempt-Keeps}
use freellm_gateway.Executor.Ways.{by_verdict}
use freellm_gateway.Executor.Loop.{Walked, walk, execute, conclude, loop_limit}
use freellm_gateway.Executor.Fallback.{Delivers, Falls, IsFree, attempt-GoesOn, attempt-Returns}

-- The first elements are among those that are taken.
take-middle :
    {A : Type 0} (n : ℕ) (before : List A) (a : A) (after : List A)
    → length before < n
    → (rest : List A) × (take n (before ++ a ∷ after) ≡ before ++ a ∷ rest)
take-middle zero before a after h = absurd (omega (arith, h))
take-middle (suc n) [] a after h = (take n after, refl)
take-middle (suc n) (b ∷ before) a after h =
    let (rest, e) = take-middle n before a after (omega (arith, h)) in
    (rest, ap (λ (xs : List _). b ∷ xs) e)

module _ (N : Number) {S Body Chunk : Type 0} (env : Env N Body Chunk)
    (opts : ExecutorOptions N S) where
  -- Candidates that come before another one of another model and provider, from the attempt with
  -- the index on: each gives way to the next if it fails. Then the other one answers.
  abbrev pub Reaches : Candidate N → Bool → ℕ → List (Candidate N) → Type 0
  Reaches c b i [] =
      (p : Provider Body Chunk) × (env.registry c.model.provider_slug ≡ some p)
      × Delivers N env opts i b p
  Reaches c b i (d ∷ ds) =
      (d.model.model_id ≢ c.model.model_id)
      × (d.model.provider_slug ≢ c.model.provider_slug)
      × ((p : Provider Body Chunk)
          → env.registry d.model.provider_slug ≡ some p
          → Falls N env opts i b p)
      × Reaches c b (suc i) ds

  abbrev Found : Walked N env opts → Type 0
  Found w = is_some w.found ≡ true

  module _ {Inv : S → Type 0} (lawful : Lawful opts.cooldown_store Inv) where
    attempt-IsFree :
        (i : ℕ) (c d : Candidate N) (asked : ChatCompletionRequest) (b : Bool) (st : State N S)
        → d.model.model_id ≢ c.model.model_id
        → d.model.provider_slug ≢ c.model.provider_slug
        → Inv st.cooldowns
        → IsFree N env opts c st.cooldowns
        → Inv (attempt N env opts i d asked b st).1.cooldowns
          × IsFree N env opts c (attempt N env opts i d asked b st).1.cooldowns
    attempt-IsFree i c d asked b st other_model other_provider inv free =
        let one =
          attempt-Keeps N env opts lawful model c.model.model_id none i d asked b st
            (inr other_model, inl (ground arith)) (inv, free.0) in
        let two =
          attempt-Keeps N env opts lawful provider c.model.provider_slug none i d asked b st
            (inl (ground arith), inr other_provider) (inv, free.1) in
        (one.0, (one.1, two.1))

    walk-Found :
        (c : Candidate N) (asked : ChatCompletionRequest) (b : Bool) (i : ℕ)
        (before after : List (Candidate N)) (as' : List (AttemptReport N)) (st : State N S)
        → Inv st.cooldowns
        → IsFree N env opts c st.cooldowns
        → Reaches c b i before
        → Found (walk N env opts i (before ++ c ∷ after) asked b as' st)
    unfolding walk
    walk-Found c asked b i [] after as' st inv free (p, known, delivers) =
        let done = attempt-Returns N env opts i c asked b st p known delivers free in
        by_verdict Found (attempt N env opts i c asked b st).2 _ _ _ (λ e. absurd (rw e at done))
          (λ e. absurd (rw e at done)) (λ p' e. refl)
    walk-Found c asked b i (d ∷ before) after as' st inv free
          (other_model, other_provider, falls, rest) =
        let (inv', free') = attempt-IsFree i c d asked b st other_model other_provider inv free in
        let goes = attempt-GoesOn N env opts i d asked b st falls in
        by_verdict Found (attempt N env opts i d asked b st).2 _ _ _
          (λ e. walk-Found c asked b (suc i) before after _ _ inv' free' rest)
          (λ e. absurd (rw e at goes)) (λ p e. refl)

  conclude-succeeded :
      (id : String) (args : ExecuteOptions N) (mode : RoutingMode) (w : Walked N env opts)
      → Found w
      → (r : ExecuteSuccess N Body Chunk) × ((conclude N env opts id args mode w).1 ≡ succeeded r)
  unfolding conclude
  conclude-succeeded id args mode w found = elim (Option-cases w.found) [
    | inl e ↦ absurd (true≢false (sym (rw e at found)))
    | inr ((c, p), e) ↦ (
      record {
        request_id = id;
        attempts = w.attempts;
        mode = mode;
        payload = p;
        upstream_provider = c.model.provider_slug;
        upstream_model = c.model.upstream_id;
      },
      rw e refl,
    )
  ]

  -- What the loop comes to over the candidates of the decision, if there are any.
  abbrev walked : ExecuteOptions N → S → List (Candidate N) → ExecuteResult N Body Chunk
  walked args s cands =
      (conclude N env opts (or_else args.request_id env.new_request_id) args
        (decide N env.draws args.pool args.ctx).mode
        (walk N env opts 0 cands args.request args.streaming []
          (record { cooldowns = s; events = [] }))).1

  execute-walked :
      (args : ExecuteOptions N) (s : S) (c : Candidate N) (cs : List (Candidate N))
      → (decide N env.draws args.pool args.ctx).candidates ≡ c ∷ cs
      → (execute N env opts args (record { cooldowns = s; events = [] })).1
        ≡ walked args s (take (loop_limit N env opts (c ∷ cs)) (c ∷ cs))
  unfolding execute
  execute-walked args s c cs e = rw (e, execute) refl

  -- A request is served if one candidate within the loop's limit, whose model and provider have no
  -- cooldown, answers when its turn comes, and the candidates before it are of other models and
  -- providers and give way: the answer of each, if it is a failure, is one that is retried, by the
  -- retry policy or by the default. Whether the earlier ones are called, refused by their cooldowns or
  -- answer themselves does not matter. This holds over any store that keeps the contract.
  pub execute-succeeded :
      {Inv : S → Type 0}
      → Lawful opts.cooldown_store Inv
      → (args : ExecuteOptions N) (s : S) (before : List (Candidate N)) (c : Candidate N)
        (after : List (Candidate N))
      → Inv s
      → IsFree N env opts c s
      → (decide N env.draws args.pool args.ctx).candidates ≡ before ++ c ∷ after
      → length before < loop_limit N env opts (before ++ c ∷ after)
      → Reaches c args.streaming 0 before
      → (r : ExecuteSuccess N Body Chunk) × ((execute N env opts args
            (record { cooldowns = s; events = [] })).1
          ≡ succeeded r)
  execute-succeeded lawful args s before c after inv free listed within reaches =
      let start : State N S = record { cooldowns = s; events = [] } in
      let (rest, taken) =
        take-middle (loop_limit N env opts (before ++ c ∷ after)) before c after within in
      let found =
        walk-Found lawful c args.request args.streaming 0 before rest [] start inv free reaches in
      let (r, e) = conclude-succeeded _ args _ _ found in
      (r, looped before listed ∙ ap (walked args s) taken ∙ e)
    where
      looped :
          (front : List (Candidate N))
          → (decide N env.draws args.pool args.ctx).candidates ≡ front ++ c ∷ after
          → (execute N env opts args (record { cooldowns = s; events = [] })).1
            ≡ walked args s (take (loop_limit N env opts (front ++ c ∷ after)) (front ++ c ∷ after))
      looped [] l = execute-walked args s c after l
      looped (d ∷ ds) l = execute-walked args s d (ds ++ c ∷ after) l
