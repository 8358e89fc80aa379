-- ===== src/Witnesses/Served.antt =====
-- A request that falls back from a provider that fails to one that answers.
use freellm_gateway.Base.{
  true≢false, sym, eq_string, none, some, Option, String, false, subst, inr, List, [], ◌∷◌, ◌++◌,
  ◌≡◌, refl, arith,
}
use freellm_gateway.Cooldown.Memory.{memory-Lawful}
use freellm_gateway.Router.Decide.{Candidate, decide, candidate_of}
use freellm_gateway.Executor.{Env, Provider, ExecuteOptions, ExecuteSuccess, succeeded}
use freellm_gateway.Executor.Loop.{execute}
use freellm_gateway.Executor.Served.{Reaches, execute-succeeded}
use freellm_gateway.Executor.Fallback.{Falls}
use freellm_gateway.Witnesses.Data.{
  thousandths, context, model_named, env, executor, call, openrouter,
}

abbrev first : Candidate thousandths
first = candidate_of thousandths context (model_named 0 "qwen")

abbrev second : Candidate thousandths
second =
    candidate_of thousandths context (record (model_named 1 "gemma") { provider_slug = "groq" })

listed :
    (decide thousandths env.draws (first.model ∷ second.model ∷ []) context).candidates
    ≡ first ∷ second ∷ []
unfolding decide freellm_gateway.Router.Decide.ranked freellm_gateway.Router.Decide.pin_provider
    freellm_gateway.Router.Decide.pin_explicit freellm_gateway.Router.Order.order_for_mode
    freellm_gateway.Router.Order.order_by freellm_gateway.Router.Order.scored
    freellm_gateway.Base.Sort.sort_by freellm_gateway.Router.Decide.survivors
    freellm_gateway.Router.Decide.alias_filtered freellm_gateway.Router.alias_handler
    freellm_gateway.Router.refusal freellm_gateway.Router.passes_status
    freellm_gateway.Router.passes_capability_filter freellm_gateway.Router.passes_virtual_key
    freellm_gateway.Router.Order.composite freellm_gateway.Scorer.score_model
    freellm_gateway.Scorer.composite_of freellm_gateway.Number.clamp01 freellm_gateway.Number.max_of
    freellm_gateway.Number.min_of freellm_gateway.Number.at_most
    freellm_gateway.Scorer.add_contributions freellm_gateway.Scorer.dims_of
    freellm_gateway.Scorer.spread_weights freellm_gateway.Scorer.weight_adj_of
listed = refl

abbrev both : Env thousandths String String
both = record env { registry = λ slug. some openrouter }

abbrev served : ExecuteOptions thousandths
served = record call { pool = first.model ∷ second.model ∷ [] }

-- The first attempt fails with status 503, which the default retries.
falls : Falls thousandths both executor 0 false openrouter
unfolding freellm_gateway.Executor.Attempt.eval_retriable freellm_gateway.Errors.Names.to_kind
    freellm_gateway.Errors.is_retriable_kind freellm_gateway.Errors.Names.kind_of_name
falls = inr refl

reaches : Reaches thousandths both executor second false 0 (first ∷ [])
reaches = (
  λ e. true≢false (sym ((eq_string.agree_iff "qwen" "gemma").1 e)),
  λ e. true≢false (sym ((eq_string.agree_iff "openrouter" "groq").1 e)),
  λ p e.
      subst
        (λ (o : Option (Provider String String)). elim o [
          | none ↦ Unit
          | some q ↦ Falls thousandths both executor 0 false q
        ])
        e falls,
  (openrouter, refl, refl),
)

execute-succeeded_example :
    (r : ExecuteSuccess thousandths String String) × ((execute thousandths both executor served
        (record { cooldowns = []; events = [] })).1
      ≡ succeeded r)
unfolding freellm_gateway.Cooldown.Memory.find_active freellm_gateway.Base.Dict.lookup
    freellm_gateway.Executor.Loop.loop_limit
execute-succeeded_example =
    execute-succeeded thousandths both executor memory-Lawful served [] (first ∷ []) second [] tt
      (refl, refl) listed (omega arith) reaches
