-- ===== src/Alerts/Rules/Repeats.antt =====
-- A rule on the number of open errors counts the errors that its own alerts are.
use freellm_gateway.Base.{
  ℕ, ◌+◌, ◌≤◌, Bool, true, ◌&&◌, Option, none, some, List, [], ◌∷◌, ◌++◌, filter, length, ◌≡◌, refl,
  ◌∙◌, ap, arith, ◌==◌, eq_nat, eq_string, if_elim, if_yes, All, ==-refl, ◌⊎◌, inl, inr,
}
use freellm_gateway.Number.{Number}
use freellm_gateway.Alerts.Usage.{day_ms}
use freellm_gateway.Alerts.Rules.{
  ErrorEvent, of_last_day, is_open, Tables, AlertRule, metric_value, compare_op, event_of, Progress,
  judge, evaluate_rule, evaluate,
}

abbrev pub tally : (ErrorEvent → Bool) → List ErrorEvent → ℕ
tally p errors = length (filter p errors)

-- An open error of the last day, and one of a given time.
abbrev pub IsAlive : ℕ → List ErrorEvent → Type 0
IsAlive now errors = 1 ≤ tally (λ e. of_last_day now e && is_open e) errors

abbrev pub is_of : ℕ → ErrorEvent → Bool
is_of at e = e.created_at == at && is_open e

tally-append :
    (p : ErrorEvent → Bool) (xs ys : List ErrorEvent) → tally p (xs ++ ys) ≡ tally p xs + tally p ys
tally-append p [] ys = omega arith
tally-append p (x ∷ xs) ys = ground (arith, tally-append p xs ys)

is_of-IsAlive :
    (at now : ℕ)
    → now ≤ at + day_ms
    → (errors : List ErrorEvent) → 1 ≤ tally (is_of at) errors
    → IsAlive now errors
is_of-IsAlive at now near [] h = absurd (omega (arith, h))
is_of-IsAlive at now near (e ∷ es) h =
    let ih = is_of-IsAlive at now near es in
    let same = (eq_nat.agree_iff e.created_at at).0 in ground (arith, h, ih, near, same)

module _ (N : Number) where
  -- A rule on the number of open errors that every number of them from one on sets off.
  pub record IsRepeating (r : AlertRule N) : Type 0 where
    pub enabled : r.enabled ≡ true
    pub metric : r.metric ≡ "error_count_24h"
    pub fires : (n : ℕ) → 1 ≤ n → compare_op N (N.lit n 1) r.operator r.threshold ≡ true

  abbrev pub HasRepeating : List (AlertRule N) → Type 0
  HasRepeating [] = ⊥
  HasRepeating (r ∷ rs) = IsRepeating r ⊎ HasRepeating rs

  HasRepeating-append : (rs qs : List (AlertRule N)) → HasRepeating qs → HasRepeating (rs ++ qs)
  HasRepeating-append [] qs h = h
  HasRepeating-append (r ∷ rs) qs h = inr (HasRepeating-append rs qs h)

  module _ (t : Tables N) (now : ℕ) where
    abbrev Grows : (ErrorEvent → Bool) → List ErrorEvent → Progress N → Type 0
    Grows p errors g = tally p errors ≤ tally p g.errors

    judge-Grows :
        (p : ErrorEvent → Bool) (r : AlertRule N) (value : Option N.F) (errors : List ErrorEvent)
        → Grows p errors (judge N now r value errors)
    unfolding judge
    judge-Grows p r none errors = omega arith
    judge-Grows p r (some value) errors =
        if_elim (Grows p errors) (compare_op N value r.operator r.threshold)
          (λ hit. omega (arith, tally-append p errors (event_of N now r ∷ [])))
          (λ miss. omega arith)

    evaluate_rule-Grows :
        (p : ErrorEvent → Bool) (r : AlertRule N) (errors : List ErrorEvent)
        → Grows p errors (evaluate_rule N now t r errors)
    unfolding evaluate_rule
    evaluate_rule-Grows p r errors =
        if_elim (Grows p errors) r.enabled
          (λ on. judge-Grows p r (metric_value N now t errors r.metric) errors) (λ off. omega arith)

    evaluate-Grows :
        (p : ErrorEvent → Bool) (rules : List (AlertRule N)) (errors : List ErrorEvent)
        → Grows p errors (evaluate N now t rules errors)
    unfolding evaluate
    evaluate-Grows p [] errors = omega arith
    evaluate-Grows p (r ∷ rs) errors =
        let first = evaluate_rule N now t r errors in
        omega (arith, evaluate_rule-Grows p r errors, evaluate-Grows p rs first.errors)

    -- The value of the metric, and what the hit leaves.
    abbrev open_errors : List ErrorEvent → ℕ
    open_errors errors = tally (λ e. of_last_day now e && is_open e) errors

    abbrev after_hit : AlertRule N → List ErrorEvent → Progress N
    after_hit r errors = record {
      errors = errors ++ event_of N now r ∷ [];
      rules =
          record r {
            last_triggered_at = some now;
            last_value = some (N.lit (open_errors errors) 1);
          }
          ∷ [];
      triggered = 1;
    }

    metric_value_lem :
        (errors : List ErrorEvent)
        → metric_value N now t errors "error_count_24h" ≡ some (N.lit (open_errors errors) 1)
    unfolding metric_value
    metric_value_lem errors = refl

    judge-hit :
        (r : AlertRule N) (errors : List ErrorEvent)
        → IsRepeating r
        → IsAlive now errors
        → judge N now r (some (N.lit (open_errors errors) 1)) errors ≡ after_hit r errors
    unfolding judge
    judge-hit r errors rep alive =
        if_yes (compare_op N (N.lit (open_errors errors) 1) r.operator r.threshold) _ _
          (rep.fires (open_errors errors) alive)

    evaluate_rule-hit :
        (r : AlertRule N) (errors : List ErrorEvent)
        → IsRepeating r
        → IsAlive now errors
        → evaluate_rule N now t r errors ≡ after_hit r errors
    unfolding evaluate_rule
    evaluate_rule-hit r errors rep alive =
        if_yes r.enabled _ _ rep.enabled
        ∙ ap (λ v. judge N now r v errors)
            (ap (metric_value N now t errors) rep.metric ∙ metric_value_lem errors)
        ∙ judge-hit r errors rep alive

    -- What an evaluation leaves to the next one: a hit, the rule, and an open error of its time.
    pub record Leaves (g : Progress N) : Type 0 where
      pub hit : 1 ≤ g.triggered
      pub kept : HasRepeating g.rules
      pub fresh : 1 ≤ tally (is_of now) g.errors

    evaluate-Leaves :
        (rules : List (AlertRule N)) (errors : List ErrorEvent)
        → HasRepeating rules
        → IsAlive now errors
        → Leaves (evaluate N now t rules errors)
    unfolding evaluate
    evaluate-Leaves [] errors has alive = absurd has
    evaluate-Leaves (r ∷ rs) errors (inl rep) alive =
        let rest = evaluate N now t rs (errors ++ event_of N now r ∷ []) in
        let counted = tally-append (is_of now) errors (event_of N now r ∷ []) in
        let own : tally (is_of now) (event_of N now r ∷ []) ≡ 1 = rw (==-refl now) refl in
        let grown = evaluate-Grows (is_of now) rs (errors ++ event_of N now r ∷ []) in
        rw (evaluate_rule-hit r errors rep alive) (record {
          hit = omega arith;
          kept = inl (record { enabled = rep.enabled; metric = rep.metric; fires = rep.fires });
          fresh = omega (arith, counted, grown, own);
        })
    evaluate-Leaves (r ∷ rs) errors (inr later) alive =
        let first = evaluate_rule N now t r errors in
        let ih = evaluate-Leaves rs first.errors later (
          omega
            (arith, alive, evaluate_rule-Grows (λ e. of_last_day now e && is_open e) r errors)) in
        record {
          hit = omega (arith, ih.hit);
          kept = HasRepeating-append first.rules (evaluate N now t rs first.errors).rules ih.kept;
          fresh = ih.fresh;
        }

  -- The hits of the evaluations at some times, with nothing else written to `error_events`.
  unfoldable pub evaluations : Tables N → List ℕ → List (AlertRule N) → List ErrorEvent → List ℕ
  evaluations t [] rules errors = []
  evaluations t (now ∷ times) rules errors =
      let g = evaluate N now t rules errors in g.triggered ∷ evaluations t times g.rules g.errors

  -- Each evaluation is at most a day after the one before it.
  abbrev pub IsDaily : ℕ → List ℕ → Type 0
  IsDaily last [] = Unit
  IsDaily last (now ∷ times) = (now ≤ last + day_ms) × IsDaily now times

  -- Once an open error is there, and an enabled rule on the number of open errors that every number
  -- from one on sets off, each evaluation has a hit, though no other error occurs, as long as the
  -- evaluations are at most a day apart: each hit writes an error that the next one counts.
  pub evaluations-hit :
      (t : Tables N) (last : ℕ) (times : List ℕ) (rules : List (AlertRule N))
      (errors : List ErrorEvent)
      → HasRepeating rules
      → 1 ≤ tally (is_of last) errors
      → IsDaily last times
      → All (λ n. 1 ≤ n) (evaluations t times rules errors)
  unfolding evaluations
  evaluations-hit t last [] rules errors has fresh daily = tt
  evaluations-hit t last (now ∷ times) rules errors has fresh daily =
      let left =
        evaluate-Leaves t now rules errors has (is_of-IsAlive last now daily.0 errors fresh) in
      let g = evaluate N now t rules errors in
      (left.hit, evaluations-hit t now times g.rules g.errors left.kept left.fresh daily.1)
