-- ===== src/Blacklist/Window.antt =====
-- When `evaluateModelLogs` gives a model up.
use freellm_gateway.Base.{
  ℕ, zero, suc, ◌+◌, ◌*◌, ◌≤◌, ◌<◌, Bool, true, false, not, ◌&&◌, Option, none, some, List, [], ◌∷◌,
  ◌≡◌, ◌↔◌, inl, inr, arith, filter, length, ltb, leb, Bool-cases, if◌then◌else◌,
}
use freellm_gateway.Blacklist.{
  Log, Options, Reason, Tally, low_success_rate, consecutive_failures, is_failure, count, count_all,
  evaluate_model_logs,
}

-- The first w logs exist and are failures.
abbrev pub FailsAtFirst : ℕ → List Log → Type 0
FailsAtFirst zero logs = Unit
FailsAtFirst (suc w) [] = ⊥
FailsAtFirst (suc w) (log ∷ logs) = (is_failure log ≡ true) × FailsAtFirst w logs

-- The logs that succeed.
abbrev pub successes : List Log → ℕ
successes logs = length (filter (λ (l : Log). not (is_failure l)) logs)

-- The leading failures.
leading : List Log → ℕ
leading [] = 0
leading (log ∷ logs) = let rest = leading logs in if is_failure log then rest + 1 else 0

count_all_lem :
    (logs : List Log) (t : Tally)
    → let r = count_all logs t in
      (r.success_count ≡ t.success_count + successes logs)
      × (r.failures ≡ (if t.broken then t.failures else t.failures + leading logs))
unfolding count_all leading
count_all_lem [] t = ground arith
count_all_lem (log ∷ logs) t = ground (arith, count_all_lem logs (count log t))

leading_iff : (w : ℕ) (logs : List Log) → (w ≤ leading logs) ↔ FailsAtFirst w logs
unfolding leading
leading_iff zero logs = (λ h. tt, λ h. omega arith)
leading_iff (suc w) [] = (λ h. omega (arith, h), λ h. absurd h)
leading_iff (suc w) (log ∷ logs) = elim (Bool-cases (is_failure log)) [
  | inl e ↦ (
    λ h. (e, (leading_iff w logs).0 (ground (arith, h, e))),
    λ h. ground (arith, (leading_iff w logs).1 h.1, e),
  )
  | inr e ↦ (λ h. absurd (ground (arith, h, e)), λ h. absurd (ground (arith, h.0, e)))
]

-- Enough logs, and too few successes.
abbrev pub IsLow : List Log → Options → Type 0
IsLow logs opts =
    (0 < length logs)
    × (opts.min_sample_size ≤ length logs)
    × (successes logs * 1000000 < opts.min_success_rate * length logs)

-- What a verdict stands for: a model is given up for exactly two reasons: its last failures fill the window, or else it has a
-- log, has enough of them, and the successes are too few. The first reason wins, and a model with
-- neither is kept.
abbrev pub IsVerdict : List Log → Options → Option Reason → Type 0
IsVerdict logs opts (some consecutive_failures) = FailsAtFirst opts.consecutive_failure_window logs
IsVerdict logs opts (some low_success_rate) =
    (FailsAtFirst opts.consecutive_failure_window logs → ⊥) × IsLow logs opts
IsVerdict logs opts none =
    (FailsAtFirst opts.consecutive_failure_window logs → ⊥) × (IsLow logs opts → ⊥)

start : Tally
start = record { success_count = 0; failures = 0; broken = false }

tallied :
    (logs : List Log)
    → ((count_all logs start).success_count ≡ successes logs)
      × ((count_all logs start).failures ≡ leading logs)
unfolding start
tallied logs = ground (arith, count_all_lem logs start)

low_test : Options → ℕ → ℕ → Bool
low_test opts good n =
    ltb 0 n && leb opts.min_sample_size n && ltb (good * 1000000) (opts.min_success_rate * n)

low_test_iff :
    (logs : List Log) (opts : Options)
    → (low_test opts (successes logs) (length logs) ≡ true) ↔ IsLow logs opts
unfolding low_test
low_test_iff logs opts = (λ h. ground (arith, h), λ h. ground (arith, h))

-- Of any logs, `evaluateModelLogs` says `consecutive_failures` only where the latest logs of the
-- window are there and all failures; `low_success_rate` only where they are not, there are enough
-- logs, and the share of successes is below the minimum; and nothing only where neither holds.
pub evaluate_model_logs-IsVerdict :
    (logs : List Log) (opts : Options) → IsVerdict logs opts (evaluate_model_logs logs opts).reason
unfolding evaluate_model_logs low_test start
evaluate_model_logs-IsVerdict logs opts =
    let (good, bad) = tallied logs in
    elim (Bool-cases (leb opts.consecutive_failure_window (leading logs))) [
      | inl e ↦ rw (bad, e) ((leading_iff _ logs).0 (ground (arith, e)))
      | inr e ↦
          let short : FailsAtFirst opts.consecutive_failure_window logs → ⊥ =
            λ h. ground (arith, (leading_iff _ logs).1 h, e) in
          elim (Bool-cases (low_test opts (successes logs) (length logs))) [
            | inl low ↦ rw (bad, good, e, low) (short, (low_test_iff logs opts).0 low)
            | inr fine ↦
                rw (bad, good, e, fine)
                  (short, λ h. ground (arith, (low_test_iff logs opts).1 h, fine))
          ]
    ]
