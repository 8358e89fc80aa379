-- ===== src/Blacklist.antt =====
-- apps/api/src/services/model-auto-blacklist.service.ts: `evaluateModelLogs`, and the run of
-- `evaluateAll` over the tables of models and of request logs. A rate is the pair of the successes
-- and the samples; `minSuccessRate` is in millionths. Window has what a verdict means, Sweep what a
-- run does to the table.
pub mod Window
pub mod Sweep
pub mod Again
use freellm_gateway.Base.{
  ℕ, zero, suc, ◌+◌, ◌-◌, ◌*◌, String, Bool, true, false, not, ◌&&◌, ◌||◌, Option, none, some, List,
  [], ◌∷◌, ◌++◌, map, filter, length, take, ltb, leb, ◌==◌, eq_nat, eq_string, if◌then◌else◌,
  or_else, is_some,
}
use freellm_gateway.Base.Sort.{sort_by}
use freellm_gateway.Status.{ModelStatus, active, status_eq}

pub record Options : Type 0 where
  pub min_success_rate : ℕ
  pub min_sample_size : ℕ
  pub consecutive_failure_window : ℕ
  pub window_ms : ℕ

abbrev pub default_options : Options
default_options = record {
  min_success_rate = 500000;
  min_sample_size = 10;
  consecutive_failure_window = 5;
  window_ms = 86400000;
}

-- The columns of `request_logs` that are read.
pub record Log : Type 0 where
  pub upstream_model : String
  pub started_at : ℕ
  pub status : Option ℕ
  pub error_kind : Option String

pub data Reason : Type 0 where
  low_success_rate consecutive_failures : Reason

pub record ModelEval : Type 0 where
  pub reason : Option Reason
  pub success_rate : Option (ℕ × ℕ)
  pub sample_size : ℕ
  pub failures : ℕ

abbrev pub is_failure : Log → Bool
is_failure log = leb 400 (or_else log.status 400) || is_some log.error_kind

-- The loop over the logs: successes, leading failures, and whether a success has been met.
pub record Tally : Type 0 where
  pub success_count : ℕ
  pub failures : ℕ
  pub broken : Bool

abbrev pub count : Log → Tally → Tally
count log t = record {
  success_count = if is_failure log then t.success_count else t.success_count + 1;
  failures = if t.broken then t.failures else if is_failure log then t.failures + 1 else t.failures;
  broken = t.broken || not (is_failure log);
}

unfoldable pub count_all : List Log → Tally → Tally
count_all [] t = t
count_all (log ∷ logs) t = count_all logs (count log t)

unfoldable pub evaluate_model_logs : List Log → Options → ModelEval
unfolding count_all
evaluate_model_logs logs opts =
    let t = count_all logs (record { success_count = 0; failures = 0; broken = false }) in
    let n = length logs in
    record {
      reason =
          if leb opts.consecutive_failure_window t.failures
          then some consecutive_failures
          else if ltb 0 n
              && leb opts.min_sample_size n
              && ltb (t.success_count * 1000000) (opts.min_success_rate * n)
          then some low_success_rate
          else none;
      success_rate = if ltb 0 n then some (t.success_count, n) else none;
      sample_size = n;
      failures = t.failures;
    }

pub data Notes : Type 0 where
  text : String → Notes
  auto_blacklisted : ModelEval → Notes

pub record ModelRow : Type 0 where
  pub id : String
  pub upstream_id : String
  pub status : ModelStatus
  pub whitelisted : Bool
  pub blacklisted : Bool
  pub manual_override : Option String
  pub notes : Option Notes

-- The last 500 logs of a model since a time, the latest first.
unfoldable pub recent_logs : ℕ → String → List Log → List Log
unfolding sort_by
recent_logs since upstream_id logs = take 500 (
    sort_by (λ (a b : Log). ltb b.started_at a.started_at)
      (filter (λ (l : Log). l.upstream_model == upstream_id && leb since l.started_at) logs))

abbrev pub overridden : String → ModelRow → Bool
overridden how m = or_else m.manual_override "" == how

abbrev pub disable : ModelEval → ModelRow → ModelRow
disable verdict m = record m {
  manual_override = some "force_disabled";
  notes = some (auto_blacklisted verdict);
}

pub record EvaluateReport : Type 0 where
  pub evaluated : ℕ
  -- The id, the upstream id and the verdict of each model; one `error_events` row and one
  -- `model:auto_blacklisted` event go out for each.
  pub blacklisted : List (String × String × ModelEval)
  pub skipped_whitelisted : ℕ
  pub skipped_force_enabled : ℕ
  pub skipped_already_disabled : ℕ

module _ (opts : Options) (logs : List Log) (now : ℕ) where
  abbrev pub evaluation : ModelRow → ModelEval
  evaluation m = evaluate_model_logs (recent_logs (now - opts.window_ms) m.upstream_id logs) opts

  -- One round of the loop: the table and the report.
  unfoldable pub sweep_one :
      ModelRow → List ModelRow × EvaluateReport → List ModelRow × EvaluateReport
  sweep_one m (table, report) =
      if m.whitelisted
      then (table, record report { skipped_whitelisted = report.skipped_whitelisted + 1 })
      else if overridden "force_enabled" m
      then (table, record report { skipped_force_enabled = report.skipped_force_enabled + 1 })
      else if m.blacklisted || overridden "force_disabled" m
      then (table, record report { skipped_already_disabled = report.skipped_already_disabled + 1 })
      else if is_some (evaluation m).reason
      then (
        map (λ r. if r.id == m.id then disable (evaluation m) r else r) table,
        record report {
          evaluated = report.evaluated + 1;
          blacklisted = report.blacklisted ++ ((m.id, m.upstream_id, evaluation m) ∷ []);
        },
      )
      else (table, record report { evaluated = report.evaluated + 1 })

  unfoldable pub sweep :
      List ModelRow → List ModelRow × EvaluateReport → List ModelRow × EvaluateReport
  sweep [] s = s
  sweep (m ∷ ms) s = sweep ms (sweep_one m s)

  unfoldable pub evaluate_all : List ModelRow → List ModelRow × EvaluateReport
  evaluate_all table = sweep (filter (λ (m : ModelRow). m.status == active) table) (
    table,
    record {
      evaluated = 0;
      blacklisted = [];
      skipped_whitelisted = 0;
      skipped_force_enabled = 0;
      skipped_already_disabled = 0;
    },
  )
