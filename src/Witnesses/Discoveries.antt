-- ===== src/Witnesses/Discoveries.antt =====
-- A free model that its provider now lists as paid, and one that it lists no longer.
use freellm_gateway.Base.{
  String, true, false, none, some, List, [], ◌∷◌, ◌++◌, map, ◌≡◌, refl, All, eq_string,
}
use freellm_gateway.Status.{ModelStatus, active}
use freellm_gateway.Discovery.{
  Codec, ModelCapabilities, DiscoveredModel, ModelRow, paid, status_changed, diff_snapshots,
  row_events,
}
use freellm_gateway.Discovery.Apply.{apply_diff}
use freellm_gateway.Discovery.Rows.{IsOwn}
use freellm_gateway.Discovery.Renewed.{listed}
use freellm_gateway.Discovery.Cycle.{synced, apply_diff-synced, row_events-synced}

abbrev codec : Codec
codec = record { Json = ModelCapabilities; stringify = λ c. c; parse = λ c. c }

abbrev streams : ModelCapabilities
streams = record {
  stream = true;
  json = false;
  tools = false;
  vision = false;
  audio = false;
  reasoning = false;
  long_context = false;
}

abbrev llama : DiscoveredModel codec
llama = record {
  upstream_id = "llama";
  context_length = 8192;
  classification = paid;
  pricing = none;
  capabilities = streams;
}

abbrev llama_row : ModelRow codec
llama_row = record {
  id = "m1";
  upstream_id = "llama";
  context_length = 4096;
  is_free = true;
  pricing_json = none;
  capabilities_json = streams;
  status = active;
  removed_at = none;
  last_seen_at = none;
}

abbrev table : List (ModelRow codec)
table = llama_row ∷ record llama_row { id = "m2"; upstream_id = "qwen" } ∷ []

abbrev name : String → String
name u = u

own : All (IsOwn codec table) table
own = (
  (((λ e. refl), (λ e. refl)), (((λ e. absurd (cc)), (λ e. absurd (cc))), tt)),
  ((((λ e. absurd (cc)), (λ e. absurd (cc))), (((λ e. refl), (λ e. refl)), tt)), tt),
)

apply_diff-synced_example :
    (rest : List (ModelRow codec)) × (apply_diff codec name 1000
        (llama ∷ [])
        (diff_snapshots codec (llama ∷ []) table)
        table
      ≡ map (λ r. synced codec name 1000 (listed codec name 1000 (llama ∷ []) r) r) table ++ rest)
apply_diff-synced_example = apply_diff-synced codec name 1000 (llama ∷ []) table (refl, tt) own

row_events-synced_example :
    row_events codec llama (synced codec name 1000 (some llama) llama_row)
    ≡ status_changed "m1" ModelStatus.paid_now active ∷ []
row_events-synced_example = row_events-synced codec name 1000 (λ c. refl) llama llama_row
