-- ===== src/Witnesses/Prices.antt =====
-- A model whose two prices are published as zero.
use freellm_gateway.Base.{ℕ, String, none, some, refl}
use freellm_gateway.Free.{FreeDetectorInput, number, text, classify_free}
use freellm_gateway.Free.Grounds.{Grounds, classify_free-Grounds}
use freellm_gateway.Witnesses.Data.{thousandths}

abbrev input : FreeDetectorInput ℕ
input = record {
  upstream_id = "meta-llama/llama-3.3:free";
  pricing =
      some (record { prompt = some (number 0); completion = some (text "0.0"); request = none });
  top_provider = none;
  override = none;
}

abbrev same : String → String
same s = s

abbrev nothing : String → ℕ
nothing s = 0

classify_free-Grounds_example :
    Grounds thousandths same nothing input
      (classify_free thousandths same nothing input).classification
classify_free-Grounds_example = classify_free-Grounds thousandths same nothing input refl
