-- ===== src/Witnesses/Limits.antt =====
-- Rate limits, score samples and the leaked probe at concrete values.
use freellm_gateway.Base.{
  if◌then◌else◌, ◌==◌, eq_string, ◌++◌, ℕ, ◌+◌, ◌*◌, ◌≤◌, String, Bool, true, false, not, Option,
  none, some, List, [], ◌∷◌, ◌≡◌, refl, arith, map, filter, length, inr, All,
}
use freellm_gateway.Cooldown.{CooldownRecord, model, provider}
use freellm_gateway.Cooldown.Gate.{run_checks}
use freellm_gateway.Cooldown.Memory.{Records, memory_store, memory-Lawful, Filed}
use freellm_gateway.Limits.{Store, Value, count, set, gc, get, token_key, record_demo_token_usage}
use freellm_gateway.Limits.Window.{admitted, call_all, call_all-admitted}
use freellm_gateway.Scorer.Sample.{ScoreSampleInput}
use freellm_gateway.Scorer.Update.{ModelColumns, record_all}
use freellm_gateway.Scorer.Recorded.{Grown, row_of, record_all-Grown}
use freellm_gateway.Router.Decide.{Candidate, candidate_of}
use freellm_gateway.Executor.{State, Env, ExecuteOptions}
use freellm_gateway.Executor.Loop.{execute}
use freellm_gateway.Executor.Benched.{Avoids, execute-Avoids}
use freellm_gateway.Executor.Attempt.{continues, attempt}
use freellm_gateway.Executor.Leak.{attempt_leak}
use freellm_gateway.Witnesses.Data.{
  asked, call, thousandths, env, executor, model_named, context, engine, openrouter,
}

free : (gc "freellm:iprate:demo-key:10.0.0.1" 5000 []).1 ≡ none
unfolding gc freellm_gateway.Base.Dict.lookup
free = refl

call_all-admitted_example :
    admitted (call_all "demo-key" "10.0.0.1" 2 3600 (5000 ∷ 5001 ∷ 6000 ∷ []) []) ≡ 2
unfolding freellm_gateway.Limits.ip_key
call_all-admitted_example =
    call_all-admitted "demo-key" "10.0.0.1" 2 3600 5000 (5001 ∷ 6000 ∷ []) [] refl refl free
      (omega arith, (omega arith, tt))

abbrev samples : List ScoreSampleInput
samples =
    record { ok = true; duration_ms = 80; first_token_ms = none; kind = none }
    ∷ record { ok = false; duration_ms = 0; first_token_ms = none; kind = some "rate_limited" }
    ∷ []

abbrev cooled : CooldownRecord
cooled = record {
  input = record {
    id = "cd-model-llama";
    scope = model;
    key = "llama";
    reason = "timeout";
    attempts = 1;
    backoff_ms = 500;
    expires_at = 600;
    half_open = false;
  };
  created_at = 100;
}

abbrev benched : CooldownRecord
benched = record {
  input = record {
    id = "cd-provider-openrouter";
    scope = provider;
    key = "openrouter";
    reason = "balance_insufficient";
    attempts = 1;
    backoff_ms = 60000;
    expires_at = 60000;
    half_open = false;
  };
  created_at = 100;
}

abbrev before : Records
before = ("cd-model-llama", cooled) ∷ ("cd-provider-openrouter", benched) ∷ []

abbrev start : State thousandths Records
start = record { cooldowns = before; events = [] }

abbrev llama : Candidate thousandths
llama = candidate_of thousandths context (model_named 0 "llama")

before-Filed : Filed before
unfolding freellm_gateway.Cooldown.record_id
before-Filed = ((refl, refl), ((refl, refl), tt))

found_model : memory_store.find_active model "llama" before ≡ some cooled
unfolding freellm_gateway.Cooldown.Memory.find_active freellm_gateway.Base.Dict.lookup
    freellm_gateway.Cooldown.record_id
found_model = refl

found_provider : memory_store.find_active provider "openrouter" before ≡ some benched
unfolding freellm_gateway.Cooldown.Memory.find_active freellm_gateway.Base.Dict.lookup
    freellm_gateway.Cooldown.record_id
found_provider = refl

-- A request for two models, one of the benched provider, and a clock that stands still.
abbrev two_providers : ExecuteOptions thousandths
two_providers = record call {
  pool = model_named 0 "qwen" ∷ record (model_named 1 "gemma") { provider_slug = "groq" } ∷ [];
}

abbrev frozen : Env thousandths String String
frozen = record env { registry = λ slug. some openrouter; clock = λ i place. 1000 }

execute-Avoids_example :
    All
      (Avoids thousandths "openrouter")
      (execute thousandths frozen executor two_providers start).0.events
    × (memory_store.find_active provider "openrouter"
          (execute thousandths frozen executor two_providers start).0.cooldowns
        ≡ some benched)
execute-Avoids_example =
    execute-Avoids thousandths frozen executor memory-Lawful two_providers before "openrouter"
      benched before-Filed found_provider (inr (λ i place. omega arith))

attempt_leak_example :
    ((attempt thousandths env executor 0 llama asked false start).2 ≡ continues)
    × ((attempt thousandths env executor 0 llama asked false start).1.events ≡ [])
    × ((run_checks memory_store engine model "llama"
          (2000 ∷ 90000 ∷ [])
          (attempt thousandths env executor 0 llama asked false start).1.cooldowns).1
        ≡ false ∷ false ∷ [])
attempt_leak_example =
    attempt_leak thousandths env executor memory-Lawful 0 llama asked false start openrouter cooled
      benched (2000 ∷ 90000 ∷ []) before-Filed refl found_model (omega arith) refl found_provider
      (omega arith)

abbrev known : String → Option (ModelColumns thousandths)
known id =
    if id == "m1"
    then some (record {
      upstream_id = "llama";
      provider_slug = "openrouter";
      capabilities = (model_named 0 "llama").capabilities;
      context_length = 8192;
      is_free = true;
      blacklisted = false;
      whitelisted = false;
      weight_adj = 0;
    })
    else none

abbrev attempts : List (String × ScoreSampleInput)
attempts = map (λ s. ("m1", s)) samples ++ map (λ s. ("m2", s)) samples

record_all-Grown_example :
    Grown thousandths
      (row_of thousandths "m1" [])
      (row_of thousandths "m1" (record_all thousandths known attempts []))
      1
      1
      1
record_all-Grown_example = record_all-Grown thousandths known "m1" _ refl attempts []
