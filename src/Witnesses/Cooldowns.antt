-- ===== src/Witnesses/Cooldowns.antt =====
-- The cooldown engine over the in-memory store and over a table with one row.
use freellm_gateway.Base.{
  ℕ, ◌+◌, ◌≤◌, ◌<◌, max, String, Bool, true, false, Option, none, some, List, [], ◌∷◌, ◌≡◌, refl,
  arith, filter, inl, inr,
}
use freellm_gateway.Cooldown.{
  Scope, model, provider, check, register_failure, register_success, backoff, EngineOptions,
  CooldownRecord, record_id,
}
use freellm_gateway.Cooldown.Memory.{
  Records, memory_store, memory-Lawful, memory-Forgets, record_id-injective,
}
use freellm_gateway.Cooldown.PrismaStore
use freellm_gateway.Cooldown.PrismaStore.{Row, prisma_store, run_checks-register_success}
use freellm_gateway.Cooldown.Gate.{run_checks}
use freellm_gateway.Cooldown.Machine.{Call, checks, fails, succeeds, run_gates, forgotten, gates_of}
use freellm_gateway.Witnesses.Data.{engine, llama_down}

-- A model fails, is asked for during and twice after its backoff, fails as a probe, and succeeds;
-- another key is open all the while.
abbrev pub calls : List Call
calls =
    fails 1000 500000 llama_down
    ∷ checks 1500 model "llama"
    ∷ checks 1500 provider "llama"
    ∷ checks 3000 model "llama"
    ∷ checks 3001 model "llama"
    ∷ fails 4000 500000 llama_down
    ∷ checks 7999 model "llama"
    ∷ succeeds 8000 model "llama"
    ∷ checks 8001 model "llama"
    ∷ []

answers :
    (run_gates engine forgotten calls (gates_of memory_store engine [])).0
    ≡ (false, false)
      ∷ (true, false)
      ∷ (true, true)
      ∷ (false, false)
      ∷ (false, false)
      ∷ (true, false)
      ∷ []
unfolding run_gates backoff freellm_gateway.Cooldown.Memory.find_active
    freellm_gateway.Base.Dict.lookup
answers = refl

abbrev probing : CooldownRecord
probing = record {
  input = record {
    id = "cd-model-llama";
    scope = model;
    key = "llama";
    reason = "timeout";
    attempts = 1;
    backoff_ms = 2000;
    expires_at = 3000;
    half_open = true;
  };
  created_at = 1000;
}

found : memory_store.find_active model "llama" (("cd-model-llama", probing) ∷ []) ≡ some probing
unfolding freellm_gateway.Cooldown.Memory.find_active freellm_gateway.Base.Dict.lookup record_id
found = refl

abbrev row : Row
row = record {
  id = "row_1";
  scope = model;
  model_id = some "llama";
  provider_id = none;
  reason = "timeout";
  attempts = 3;
  backoff_ms = 8000;
  expires_at = 9000;
  half_open = false;
  created_at = 1000;
  resolved_at = none;
}

only_row : filter (PrismaStore.matches model "llama") (row ∷ []) ≡ row ∷ []
unfolding freellm_gateway.Cooldown.PrismaStore.matches
only_row = refl

run_checks-register_success_example :
    (run_checks
      (prisma_store (λ rows. "row_2"))
      engine
      model
      "llama"
      (20000 ∷ 20001 ∷ 90000 ∷ [])
      (register_success (prisma_store (λ rows. "row_2")) engine 10000 model "llama" (row ∷ []))).1
    ≡ true ∷ false ∷ false ∷ []
run_checks-register_success_example =
    run_checks-register_success (λ rows. "row_2") engine model "llama" 10000 20000
      (20001 ∷ 90000 ∷ []) (row ∷ []) row only_row
