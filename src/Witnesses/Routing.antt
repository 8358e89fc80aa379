-- ===== src/Witnesses/Routing.antt =====
-- The router, the scores and the executor at a request for `free/auto`.
use freellm_gateway.Base.{ℕ, ◌≡◌, refl, All, [], some, none, true, inl, find, ◌==◌, eq_string}
use freellm_gateway.Scorer.{ScoreInput}
use freellm_gateway.Router.Order.{to_score_input}
use freellm_gateway.Base.Sort.{InOrder}
use freellm_gateway.Router.{
  RouteRequestContext, prefer_model_fallback, alias_handler, refusal, passes_status,
  passes_capability_filter, passes_virtual_key,
}
use freellm_gateway.Router.Ranking.{better, decide-InOrder}
use freellm_gateway.Router.Decide.{Candidate, decide, survivors, alias_filtered}
use freellm_gateway.Router.Safety.{IsAdmissible, decide-IsAdmissible}
use freellm_gateway.Executor.{State}
use freellm_gateway.Executor.Loop.{execute}
use freellm_gateway.Executor.Upstream.{Calls, Names, execute-Calls}
use freellm_gateway.Witnesses.Data.{
  asked, thousandths, pool, context, model_named, env, executor, call,
}
use freellm_gateway.Cooldown.Memory.{Records}

abbrev start : State thousandths Records
start = record { cooldowns = []; events = [] }

decide-IsAdmissible_example :
    All
      (λ (c : Candidate thousandths). IsAdmissible thousandths context pool c.model)
      (decide thousandths (λ n. 500) pool context).candidates
decide-IsAdmissible_example = decide-IsAdmissible thousandths (λ n. 500) pool context

execute-Calls_example :
    All
      (Calls thousandths asked (IsAdmissible thousandths context pool))
      (execute thousandths env executor call start).0.events
    × Names thousandths env executor
        (IsAdmissible thousandths context pool)
        asked
        (execute thousandths env executor call start).1
execute-Calls_example = execute-Calls thousandths env executor call []

abbrev banned : ScoreInput thousandths
banned = record (to_score_input thousandths (model_named 0 "llama")) { blacklisted = true }

decide-InOrder_example :
    InOrder (better thousandths context) (decide thousandths (λ n. 500) pool context).candidates
decide-InOrder_example = decide-InOrder thousandths (λ n. 500) pool context (inl refl)

abbrev asking : RouteRequestContext ℕ
asking = record context {
  explicit_model = some "qwen";
  policy = record {
    name = "mine";
    mode = prefer_model_fallback;
    weights = none;
    provider_slug = none;
  };
}

survives :
    find
      (λ q. q.upstream_id == "qwen")
      (survivors thousandths asking (alias_filtered thousandths asking pool))
    ≡ some (model_named 1 "qwen")
unfolding survivors alias_filtered alias_handler refusal passes_status passes_capability_filter
    passes_virtual_key
survives = refl
