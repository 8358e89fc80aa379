-- ===== src/Witnesses/Blacklists.antt =====
-- One model whose last five calls failed, and one that is whitelisted.
use freellm_gateway.Base.{ℕ, true, false, none, some, List, [], ◌∷◌, map, ◌≡◌, refl, All, eq_string}
use freellm_gateway.Status.{active}
use freellm_gateway.Blacklist.{Log, ModelRow, default_options, evaluate_model_logs, evaluate_all}
use freellm_gateway.Blacklist.Window.{IsVerdict, evaluate_model_logs-IsVerdict}
use freellm_gateway.Blacklist.Sweep.{IsAlone, judged, evaluate_all-judged}

abbrev pub failure : ℕ → Log
failure at = record { upstream_model = "a"; started_at = at; status = some 503; error_kind = none }

abbrev pub logs : List Log
logs = failure 1 ∷ failure 2 ∷ failure 3 ∷ failure 4 ∷ failure 5 ∷ []

abbrev pub broken : ModelRow
broken = record {
  id = "m1";
  upstream_id = "a";
  status = active;
  whitelisted = false;
  blacklisted = false;
  manual_override = none;
  notes = none;
}

abbrev table : List ModelRow
table = broken ∷ record broken { id = "m2"; whitelisted = true } ∷ []

unique : All (IsAlone table) table
unique = ((λ e. refl, (λ e. absurd (cc), tt)), ((λ e. absurd (cc), (λ e. refl, tt)), tt))

evaluate_model_logs-IsVerdict_example :
    IsVerdict logs default_options (evaluate_model_logs logs default_options).reason
evaluate_model_logs-IsVerdict_example = evaluate_model_logs-IsVerdict logs default_options

evaluate_all-judged_example :
    (evaluate_all default_options logs 1000 table).0 ≡ map (judged default_options logs 1000) table
evaluate_all-judged_example = evaluate_all-judged default_options logs 1000 table unique
