-- ===== src/Executor/Loop.antt =====
-- The loop of `execute`, `persistAttempts`, `fail` and `execute` itself.
use Prim.Native.String.{◌++◌ as joined}
use freellm_gateway.Base.{
  ℕ, suc, min, String, Bool, Option, none, some, List, [], ◌∷◌, ◌++◌, if◌then◌else◌, or_else,
  length, take,
}
use freellm_gateway.Errors.{ErrorKind, no_route_available, all_attempts_failed, new_error}
use freellm_gateway.Number.{Number}
use freellm_gateway.Classify.{decimal}
use freellm_gateway.Router.{RoutingMode}
use freellm_gateway.Router.Decide.{Candidate, decide}
use freellm_gateway.Executor.{
  Payload, Env, AttemptReport, ChatCompletionRequest, Event, persisted, ExecuteOptions,
  ExecutorOptions, State, ExecuteResult, succeeded, failed,
}
use freellm_gateway.Executor.Attempt.{continues, breaks, returns, attempt}

module _ (N : Number) where
  open N use {F}

  -- The attempt whose upstream the log names: the successful one, or else the last.
  unfoldable pub last_attempt : AttemptReport N → List (AttemptReport N) → AttemptReport N
  last_attempt a [] = a
  last_attempt a (b ∷ bs) = if a.ok then a else last_attempt b bs

  unfoldable pub persist_attempts :
      String → List (AttemptReport N) → ExecuteOptions N → List (Event N)
  persist_attempts request_id [] args = []
  persist_attempts request_id (a ∷ as') args =
      let last = last_attempt a as' in
      persisted (record {
        request_id = request_id;
        attempts = length (a ∷ as');
        streaming = args.streaming;
        model_alias = args.ctx.alias;
        routing_mode = args.ctx.policy.mode;
        upstream_provider = last.provider_slug;
        upstream_model = last.upstream_model;
        status = if last.ok then 200 else 502;
        error_kind = last.error_kind;
        route_attempts = a ∷ as';
      })
      ∷ []

  module _ {S Body Chunk : Type 0} (env : Env N Body Chunk) (opts : ExecutorOptions N S) where
    -- Where the loop stands when it is left: by `return` with a payload, or by `break` or its end.
    pub record Walked : Type 0 where
      pub attempts : List (AttemptReport N)
      pub state : State N S
      pub found : Option (Candidate N × Payload Body Chunk)

    -- From candidate number i on.
    unfoldable pub walk :
        ℕ
        → List (Candidate N)
        → ChatCompletionRequest
        → Bool
        → List (AttemptReport N)
        → State N S
        → Walked
    walk i [] request streaming attempts st = record {
      attempts = attempts;
      state = st;
      found = none;
    }
    walk i (c ∷ cs) request streaming attempts st =
        let (report, st', verdict) = attempt N env opts i c request streaming st in
        let rest = walk (suc i) cs request streaming (attempts ++ report ∷ []) st' in
        elim verdict [
          | continues ↦ rest
          | breaks ↦ record { attempts = attempts ++ report ∷ []; state = st'; found = none }
          | returns p ↦ record {
            attempts = attempts ++ report ∷ [];
            state = st';
            found = some (c, p);
          }
        ]

    unfoldable pub loop_limit : List (Candidate N) → ℕ
    loop_limit candidates =
        min (elim opts.retry_policy [ none ↦ opts.max_attempts | some p ↦ p.max_attempts ])
          (length candidates)

    unfoldable pub fail :
        String
        → List (AttemptReport N)
        → RoutingMode
        → ErrorKind
        → String
        → ExecuteResult N Body Chunk
    fail request_id attempts mode kind message = failed (record {
      request_id = request_id;
      attempts = attempts;
      mode = mode;
      error =
          new_error kind message
            (record { request_id = some request_id; attempts = some (length attempts) });
    })

    -- What follows the loop, and the `return` out of it.
    unfoldable pub conclude :
        String → ExecuteOptions N → RoutingMode → Walked → State N S × ExecuteResult N Body Chunk
    conclude request_id args mode w = (
      record w.state { events = w.state.events ++ persist_attempts request_id w.attempts args },
      elim w.found [
        | some (c, p) ↦ succeeded (record {
          request_id = request_id;
          attempts = w.attempts;
          mode = mode;
          payload = p;
          upstream_provider = c.model.provider_slug;
          upstream_model = c.model.upstream_id;
        })
        | none ↦
            fail request_id w.attempts mode all_attempts_failed
              (joined (decimal (length w.attempts)) " attempt(s) failed")
      ],
    )

    unfoldable pub execute : ExecuteOptions N → State N S → State N S × ExecuteResult N Body Chunk
    execute args st =
        let request_id = or_else args.request_id env.new_request_id in
        let decision = decide N env.draws args.pool args.ctx in
        elim decision.candidates [
          | [] ↦ (st, fail request_id [] decision.mode no_route_available "没有候选模型通过路由过滤条件")
          | c ∷ cs ↦
              conclude request_id args decision.mode
                (walk 0 (take (loop_limit (c ∷ cs)) (c ∷ cs)) args.request args.streaming [] st)
        ]
