-- ===== src/Witnesses/Pools.antt =====
-- A table of one model whose calls fail, its pool, and a request.
use freellm_gateway.Base.{
  ℕ, true, false, Option, none, some, List, [], ◌∷◌, ◌≡◌, refl, All, eq_string,
}
use freellm_gateway.Scorer.{Capabilities}
use freellm_gateway.Blacklist.{default_options, evaluate_all}
use freellm_gateway.Blacklist.Sweep.{IsAlone}
use freellm_gateway.Pool.{PoolRow, build_pool}
use freellm_gateway.Pool.Overridden.{rejoin, columns, build_pool-evaluate_all}
use freellm_gateway.Witnesses.Blacklists.{broken, logs}
use freellm_gateway.Witnesses.Data.{thousandths}

abbrev parse : Capabilities → Option Capabilities
parse c = some c

abbrev rows : List (PoolRow ℕ Capabilities)
rows =
    record {
      model = broken;
      is_free = true;
      context_length = 8192;
      capabilities_json = record {
        stream = true;
        json = true;
        tools = true;
        vision = false;
        audio = false;
      };
      weight_adj = 0;
      provider_slug = "openrouter";
      scores = none;
    }
    ∷ []

alone : All (IsAlone (columns thousandths parse rows)) (columns thousandths parse rows)
alone = (((λ e. refl), tt), tt)

build_pool-evaluate_all_example :
    build_pool thousandths parse (
      rejoin thousandths parse rows
        (evaluate_all default_options logs 1000 (columns thousandths parse rows)).0)
    ≡ build_pool thousandths parse rows
build_pool-evaluate_all_example =
    build_pool-evaluate_all thousandths parse default_options logs 1000 rows alone
