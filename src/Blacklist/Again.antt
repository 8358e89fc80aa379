-- ===== src/Blacklist/Again.antt =====
-- A second run of `evaluateAll` finds nothing.
use freellm_gateway.Base.{
  ℕ, false, ◌&&◌, List, [], ◌∷◌, map, ◌≡◌, refl, sym, ◌∙◌, subst, inl, inr, arith, filter, All,
  ◌==◌, eq_string, Bool-cases,
}
use freellm_gateway.Status.{active, status_eq}
use freellm_gateway.Blacklist.{
  Log, Options, ModelRow, EvaluateReport, sweep_one, sweep, evaluate_all,
}
use freellm_gateway.Blacklist.Sweep.{is_given_up, judged, IsAlone, evaluate_all-judged}

module _ (opts : Options) (logs : List Log) (now : ℕ) where
  IsSettled : ModelRow → Type 0
  IsSettled m = (m.status == active && is_given_up opts logs now m) ≡ false

  judged-IsSettled : (m : ModelRow) → IsSettled (judged opts logs now m)
  unfolding IsSettled
  judged-IsSettled m = elim (Bool-cases (m.status == active && is_given_up opts logs now m)) [
    | inl e ↦ rw e (ground arith)
    | inr e ↦ rw e e
  ]

  All-IsSettled : (table : List ModelRow) → All IsSettled (map (judged opts logs now) table)
  All-IsSettled [] = tt
  All-IsSettled (m ∷ ms) = (judged-IsSettled m, All-IsSettled ms)

  -- What a round does at a settled row.
  sweep_one-settled :
      (m : ModelRow) (table : List ModelRow) (report : EvaluateReport)
      → is_given_up opts logs now m ≡ false
      → let r = sweep_one opts logs now m (table, report) in
        (r.0 ≡ table) × (r.1.blacklisted ≡ report.blacklisted)
  unfolding sweep_one
  sweep_one-settled m table report e = ground (arith, e)

  sweep-settled :
      (ms table : List ModelRow) (report : EvaluateReport)
      → All IsSettled ms
      → let r =
          sweep opts logs now (filter (λ (m : ModelRow). m.status == active) ms) (table, report) in
        (r.0 ≡ table) × (r.1.blacklisted ≡ report.blacklisted)
  unfolding sweep IsSettled
  sweep-settled [] table report h = (refl, refl)
  sweep-settled (m ∷ ms) table report h = elim (Bool-cases (m.status == active)) [
    | inl e ↦ rw e (
        let s = sweep_one opts logs now m (table, report) in
        let (same, quiet) = sweep_one-settled m table report (ground (arith, h.0, e)) in
        let rest = sweep-settled ms s.0 s.1 h.1 in (rest.0 ∙ same, rest.1 ∙ quiet))
    | inr e ↦ rw e (sweep-settled ms table report h.1)
  ]

  -- In a table where an id belongs to one row, a second run at the same time and over the same logs
  -- gives up no model and changes no row.
  evaluate_all-again :
      (table : List ModelRow)
      → All (IsAlone table) table
      → let again = evaluate_all opts logs now (evaluate_all opts logs now table).0 in
        (again.0 ≡ (evaluate_all opts logs now table).0) × (again.1.blacklisted ≡ [])
  unfolding evaluate_all
  evaluate_all-again table unique =
      let first = evaluate_all opts logs now table in
      sweep-settled first.0 first.0 _ (
        subst (All IsSettled) (sym (evaluate_all-judged opts logs now table unique))
          (All-IsSettled table))
