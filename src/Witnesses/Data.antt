-- ===== src/Witnesses/Data.antt =====
-- Values that the examples share: numbers in thousandths, a pool of two models, a provider that
-- fails once and then answers.
use freellm_gateway.Base.{
  ℕ, ◌+◌, ◌-◌, ◌*◌, ◌/◌, String, Bool, true, false, none, some, List, [], ◌∷◌, ◌≡◌, refl, arith,
  ltb, nat_beq, ◌==◌, eq_string, eq_nat, if◌then◌else◌,
}
use freellm_gateway.Number.{Number}
use freellm_gateway.Scorer.{Dimensions}
use freellm_gateway.Status.{active}
use freellm_gateway.Router.{PoolModel, RouteRequestContext, auto_best_free}
use freellm_gateway.Cooldown.{EngineOptions, model, RegisterFailureInput}
use freellm_gateway.Cooldown.Memory.{Records, memory_store}
use freellm_gateway.Executor.{
  ChatCompletionRequest, CallOutcome, returned, Provider, Env, ExecuteOptions, ExecutorOptions,
}

abbrev pub shown : ℕ → String
shown n = "1970-01-01T00:00:00.000Z"

pub ltb_asym : (a b : ℕ) → ltb a b ≡ true → ltb b a ≡ false
ltb_asym a b h = ground arith

pub ltb_cotrans : (a b c : ℕ) → ltb a b ≡ false → ltb b c ≡ false → ltb a c ≡ false
ltb_cotrans a b c h k = ground arith

abbrev pub thousandths : Number
thousandths = record {
  F = ℕ;
  lit = λ n d. n * 1000 / d;
  add = λ a b. a + b;
  sub = λ a b. a - b;
  mul = λ a b. a * b / 1000;
  div = λ a b. a * 1000 / b;
  neg = λ a. 0;
  less = ltb;
  equal = nat_beq;
  is_finite = λ a. true;
  round = λ a. (a + 500) / 1000 * 1000;
  to_fixed = λ a d. "0.50";
  zero_finite = refl;
  one_finite = refl;
  zero-less-one = refl;
  less_asym = ltb_asym;
  less_cotrans = λ a b c f g h. ltb_cotrans a b c;
}

abbrev pub halves : Dimensions ℕ
halves = record {
  availability = 500;
  latency = 500;
  rate_limit = 500;
  quality = 500;
  context = 500;
  freshness = 500;
  cost = 500;
  stability = 500;
  first_token_latency = 500;
}

abbrev pub model_named : ℕ → String → PoolModel ℕ
model_named n name = record {
  ref = n;
  model_id = name;
  upstream_id = name;
  provider_slug = "openrouter";
  is_free = true;
  context_length = 8192;
  capabilities = record {
    stream = true;
    json = true;
    tools = false;
    vision = false;
    audio = false;
  };
  status = active;
  blacklisted = false;
  whitelisted = false;
  weight_adj = 0;
  scores = halves;
}

abbrev pub pool : List (PoolModel ℕ)
pool = model_named 0 "llama" ∷ model_named 1 "qwen" ∷ []

abbrev pub context : RouteRequestContext ℕ
context = record {
  alias = some "free/auto";
  explicit_model = none;
  require_capabilities = none;
  permissions = none;
  policy = record { name = "default"; mode = auto_best_free; weights = none; provider_slug = none };
  max_candidates = 5;
}

abbrev pub outcome : Bool → CallOutcome
outcome ok = record {
  ok = ok;
  duration_ms = 20;
  first_token_ms = none;
  status = some (if ok then 200 else 503);
  error_kind = if ok then none else some "provider_unavailable";
  error_message = none;
}

abbrev pub openrouter : Provider String String
openrouter = record {
  complete = λ i. returned (outcome (ltb 0 i)) "pong";
  stream = λ i. returned (outcome (ltb 0 i)) ("po" ∷ "ng" ∷ []);
}

abbrev pub env : Env thousandths String String
env = record {
  registry = λ slug. if slug == "openrouter" then some openrouter else none;
  clock = λ i place. 1000 + i;
  random = λ i place. 500000;
  draws = λ n. 500;
  new_request_id = "req_1";
}

abbrev pub engine : EngineOptions
engine = record { base_ms = none; max_ms = none; jitter_pct = none; iso = shown }

abbrev pub executor : ExecutorOptions thousandths Records
executor = record {
  cooldown_store = memory_store;
  cooldown = engine;
  scores = true;
  max_attempts = 4;
  retry_policy = none;
}

-- The request names a model that no candidate has.
abbrev pub asked : ChatCompletionRequest
asked = record { model = "free/auto" }

abbrev pub call : ExecuteOptions thousandths
call = record { request = asked; ctx = context; pool = pool; streaming = false; request_id = none }

abbrev pub llama_down : RegisterFailureInput
llama_down = record { scope = model; key = "llama"; reason = "timeout"; hint_ms = some 2000 }
