-- ===== src/Executor.antt =====
-- apps/api/src/services/route-executor.service.ts: the data of `RouteExecutorService.execute`.
-- Attempt has one round of its loop, Loop the loop and the result; the other children are proofs.
-- The world answers through `Env`: the registry with the providers' answers, the clock (a reading
-- for each attempt and place), the random draws and the id of a new request. What the code does to
-- the world besides the cooldowns is a list of events, oldest first.
pub mod Attempt
pub mod Loop
pub mod Ways
pub mod Upstream
pub mod Leak
pub mod Apart
pub mod Benched
pub mod Fallback
pub mod Served
use freellm_gateway.Base.{ℕ, String, Bool, Option, List}
use freellm_gateway.Errors.{FreeLlmError, ErrorKind}
use freellm_gateway.Number.{Number}
use freellm_gateway.Scorer.{ScoreExplanation}
use freellm_gateway.Retry.{RetryPolicy}
use freellm_gateway.Cooldown.{CooldownStore, EngineOptions}
use freellm_gateway.Router.{PoolModel, RouteRequestContext, RoutingMode}

-- `ProviderCallOutcome` of packages/provider-core/src/types.ts.
pub record CallOutcome : Type 0 where
  pub ok : Bool
  pub duration_ms : ℕ
  pub first_token_ms : Option ℕ
  pub status : Option ℕ
  pub error_kind : Option String
  pub error_message : Option String

-- A call returns an outcome with its content, or throws an error with a message and a name.
pub data Answer (A : Type 0) : Type 0 where
  returned : CallOutcome → A → Answer A
  threw : String → String → Answer A

-- A provider's answer at each attempt. A stream is the list of its chunks, with the outcome that it
-- reports once its first chunk was awaited.
pub record Provider (Body Chunk : Type 0) : Type 0 where
  pub complete : ℕ → Answer Body
  pub stream : ℕ → Answer (List Chunk)

pub data Payload (Body Chunk : Type 0) : Type 0 where
  response : Body → Payload Body Chunk
  chunks : List Chunk → Payload Body Chunk

-- Where in an attempt the clock is read or a number is drawn.
pub data Place : Type 0 where
  model_gate provider_gate started settled model_outcome provider_outcome pause : Place

-- Of the request, the model that it names; the rest is passed on as it is.
pub record ChatCompletionRequest : Type 0 where
  pub model : String

module _ (N : Number) where
  open N use {F}

  pub record Env (Body Chunk : Type 0) : Type 0 where
    pub registry : String → Option (Provider Body Chunk)
    pub clock : ℕ → Place → ℕ
    pub random : ℕ → Place → ℕ
    pub draws : ℕ → F
    pub new_request_id : String

  pub record AttemptReport : Type 0 where
    pub ordinal : ℕ
    pub model_id : String
    pub provider_slug : String
    pub upstream_model : String
    pub duration_ms : ℕ
    pub first_token_ms : Option ℕ
    pub ok : Bool
    pub status : Option ℕ
    pub error_kind : Option String
    pub error_message : Option String
    pub cooldown_triggered : Bool
    pub rationale : String
    pub score : F
    pub score_explanation : ScoreExplanation N

  -- The sample of `scoreUpdater.recordAttempt`.
  pub record Sample : Type 0 where
    pub ok : Bool
    pub duration_ms : ℕ
    pub first_token_ms : Option ℕ
    pub kind : Option ErrorKind

  -- The request log that `persistAttempts` writes, with one row for each attempt.
  pub record PersistedLog : Type 0 where
    pub request_id : String
    pub attempts : ℕ
    pub streaming : Bool
    pub model_alias : Option String
    pub routing_mode : RoutingMode
    pub upstream_provider : String
    pub upstream_model : String
    pub status : ℕ
    pub error_kind : Option String
    pub route_attempts : List AttemptReport

  -- `called` is a call of the provider with a slug, with the request that it is given.
  pub data Event : Type 0 where
    called : String → ChatCompletionRequest → Event
    sampled : String → Sample → Event
    slept : ℕ → Event
    persisted : PersistedLog → Event

  pub record ExecuteOptions : Type 0 where
    pub request : ChatCompletionRequest
    pub ctx : RouteRequestContext F
    pub pool : List (PoolModel F)
    pub streaming : Bool
    pub request_id : Option String

  -- `RouteExecutorOptions`; `scores` tells whether a score updater is given.
  pub record ExecutorOptions (S : Type 0) : Type 0 where
    pub cooldown_store : CooldownStore S
    pub cooldown : EngineOptions
    pub scores : Bool
    pub max_attempts : ℕ
    pub retry_policy : Option RetryPolicy

  pub record State (S : Type 0) : Type 0 where
    pub cooldowns : S
    pub events : List Event

  pub record ExecuteSuccess (Body Chunk : Type 0) : Type 0 where
    pub request_id : String
    pub attempts : List AttemptReport
    pub mode : RoutingMode
    pub payload : Payload Body Chunk
    pub upstream_provider : String
    pub upstream_model : String

  pub record ExecuteFailure : Type 0 where
    pub request_id : String
    pub attempts : List AttemptReport
    pub mode : RoutingMode
    pub error : FreeLlmError

  pub data ExecuteResult (Body Chunk : Type 0) : Type 0 where
    succeeded : ExecuteSuccess Body Chunk → ExecuteResult Body Chunk
    failed : ExecuteFailure → ExecuteResult Body Chunk
