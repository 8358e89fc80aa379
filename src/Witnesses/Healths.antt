-- ===== src/Witnesses/Healths.antt =====
-- Failed checks of a provider whose slug is not its id, and a request to log.
use freellm_gateway.Base.{ℕ, true, false, none, some, List, [], ◌∷◌, ◌≡◌, refl, inl, inr, arith}
use freellm_gateway.Classify.Regex.{units, done, by_letter, by_choice}
use freellm_gateway.Cooldown.{provider}
use freellm_gateway.Cooldown.PrismaStore.{find_active}
use freellm_gateway.Health.{Report, ProviderRow, Db}
use freellm_gateway.Health.Gate.{Probe, probe_all, find_active-probe_all}
use freellm_gateway.Health.Standing.{standing}
use freellm_gateway.Redact.{Value, number, text, obj, no_fields, field, scrub, names_key}
use freellm_gateway.Redact.Secrets.{Alike, HasKey, scrub_lem}

abbrev openrouter : ProviderRow
openrouter = record {
  id = "cmb1x";
  slug = "openrouter";
  status = "active";
  last_health_at = none;
  last_success_at = none;
  last_error_at = none;
  last_error_message = none;
  error_count_24h = 0;
}

abbrev db : Db
db = record { providers = openrouter ∷ []; checks = []; cooldowns = [] }

abbrev down : Report
down = record { ok = false; status = "degraded"; latency_ms = none; message = some "503" }

abbrev probe : ℕ → Probe
probe taken = record {
  fresh = "c1";
  elapsed = 90;
  taken = taken;
  slug = "openrouter";
  report = down;
}

abbrev probes : List Probe
probes = probe 1000 ∷ probe 61000 ∷ []

find_active-probe_all_example :
    find_active provider "openrouter" (probe_all 300000 probes db).cooldowns
    ≡ find_active provider "openrouter" []
find_active-probe_all_example = find_active-probe_all 300000 probes db "openrouter" (refl, tt)

one_row : standing 61000 "cmb1x" (probe_all 300000 probes db).cooldowns ≡ 1
unfolding probe_all freellm_gateway.Health.record_check freellm_gateway.Health.cool
    freellm_gateway.Cooldown.PrismaStore.matches
one_row = refl

kelvin : names_key "KEY_ID" ≡ true
unfolding names_key freellm_gateway.Classify.Regex.test freellm_gateway.Classify.Regex.search_from
    freellm_gateway.Classify.Regex.match_here freellm_gateway.Classify.Regex.units
    freellm_gateway.Classify.Regex.choice freellm_gateway.Classify.Regex.words
kelvin = refl

named_key : HasKey "openrouterKey"
unfolding units freellm_gateway.Classify.Regex.choice freellm_gateway.Classify.Regex.words
named_key = (
  units "openrouter",
  units "Key",
  [],
  refl,
  by_choice refl (by_letter refl (by_letter refl done)),
)

abbrev request : Value → Value → Value
request password key =
    obj (
      field "password" password (field "openrouterKey" key (field "tokens" (number "7") no_fields)))

scrub_lem_example :
    scrub (request (text (units "hunter2")) (text (units "sk-or-v1-aaaaaa9f")))
    ≡ scrub (request (number "5") (text (units "sk-or-v1-bbbbbb9f")))
unfolding Alike units
scrub_lem_example =
    scrub_lem (request (text (units "hunter2")) (text (units "sk-or-v1-aaaaaa9f")))
      (request (number "5") (text (units "sk-or-v1-bbbbbb9f")))
      (
        refl,
        inl refl,
        (
          refl,
          inr (
              inl (
                named_key,
                inr (
                  units "sk-o",
                  units "r-v1-aaaaaa",
                  units "r-v1-bbbbbb",
                  units "9f",
                  refl,
                  refl,
                  refl,
                  refl,
                  omega arith,
                  omega arith,
                ),
              )),
          (refl, inr (inr refl), tt),
        ),
      )
