-- ===== src/Blacklist/Sweep.antt =====
-- What one run of `evaluateAll` leaves in the table, and what a second run finds.
use freellm_gateway.Base.{
  ℕ, Bool, true, false, not, ◌&&◌, ◌||◌, List, [], ◌∷◌, map, ◌≡◌, refl, sym, ◌∙◌, ap, subst, inl,
  inr, ◌⊎◌, arith, filter, IsIn, All-IsIn, map-map, map-same, All, ◌==◌, eq_string, Bool-cases,
  if◌then◌else◌, is_some,
}
use freellm_gateway.Status.{active, status_eq}
use freellm_gateway.Keys.Refusals.{and-both}
use freellm_gateway.Blacklist.{
  Log, Options, ModelRow, EvaluateReport, overridden, disable, evaluation, sweep_one, sweep,
  evaluate_all,
}

-- A row whose id no other row has.
abbrev pub IsAlone : List ModelRow → ModelRow → Type 0
IsAlone ms r = All (λ (m : ModelRow). (r.id == m.id) ≡ true → m ≡ r) ms

module _ (opts : Options) (logs : List Log) (now : ℕ) where
  -- A model that the loop does not skip, and whose logs are bad.
  abbrev pub is_given_up : ModelRow → Bool
  is_given_up m =
      not m.whitelisted
      && not (overridden "force_enabled" m)
      && not (m.blacklisted || overridden "force_disabled" m)
      && is_some (evaluation opts logs now m).reason

  -- What a run does to a row.
  abbrev pub judged : ModelRow → ModelRow
  judged m =
      if m.status == active && is_given_up m then disable (evaluation opts logs now m) m else m

  abbrev touch : ModelRow → ModelRow → ModelRow
  touch m r = if is_given_up m && r.id == m.id then disable (evaluation opts logs now m) r else r

  abbrev touch_all : List ModelRow → ModelRow → ModelRow
  touch_all [] r = r
  touch_all (m ∷ ms) r = touch_all ms (touch m r)

  touch-kept :
      (m : ModelRow) → is_given_up m ≡ false → (table : List ModelRow) → map (touch m) table ≡ table
  touch-kept m e [] = refl
  touch-kept m e (r ∷ rs) = rw (e, touch-kept m e rs) refl

  touch-given_up :
      (m : ModelRow)
      → is_given_up m ≡ true
      → (table : List ModelRow)
      → map (touch m) table
        ≡ map (λ r. if r.id == m.id then disable (evaluation opts logs now m) r else r) table
  touch-given_up m e [] = refl
  touch-given_up m e (r ∷ rs) = rw (e, touch-given_up m e rs) refl

  sweep_one-table :
      (m : ModelRow) (table : List ModelRow) (report : EvaluateReport)
      → (sweep_one opts logs now m (table, report)).0 ≡ map (touch m) table
  unfolding sweep_one
  sweep_one-table m table report = elim (Bool-cases (is_given_up m)) [
    | inl e ↦ rw (touch-given_up m e table) (ground (arith, e))
    | inr e ↦ rw (touch-kept m e table) (ground (arith, e))
  ]

  sweep-table :
      (ms table : List ModelRow) (report : EvaluateReport)
      → (sweep opts logs now ms (table, report)).0 ≡ map (touch_all ms) table
  unfolding sweep
  sweep-table [] table report = sym (map-same (λ r. r) table (λ r. refl))
  sweep-table (m ∷ ms) table report =
      let s = sweep_one opts logs now m (table, report) in
      sweep-table ms s.0 s.1
      ∙ ap (map (touch_all ms)) (sweep_one-table m table report)
      ∙ map-map (touch m) (touch_all ms) table

  if-same : (b : Bool) (r : ModelRow) → (if b then r else r) ≡ r
  if-same true r = refl
  if-same false r = refl

  touch-alone :
      (m r : ModelRow)
      → ((r.id == m.id) ≡ true → m ≡ r)
      → touch m r
        ≡ (if is_given_up r && r.id == m.id then disable (evaluation opts logs now r) r else r)
  touch-alone m r alone = elim (Bool-cases (r.id == m.id)) [
    | inl e ↦
        subst
          (λ x.
            touch x r
            ≡ (if is_given_up r && r.id == x.id then disable (evaluation opts logs now r) r else r))
          (sym (alone e)) refl
    | inr e ↦ ground (arith, e)
  ]

  abbrev sweeping : List ModelRow → List ModelRow
  sweeping = filter (λ (m : ModelRow). m.status == active)

  touch-kept_row :
      (m r : ModelRow)
      → (r.status == active && is_given_up r) ≡ false
      → ((r.id == m.id) ≡ true → m ≡ r)
      → (m.status == active) ≡ true
      → touch m r ≡ r
  touch-kept_row m r good alone on = elim (Bool-cases (r.id == m.id)) [
    | inl e ↦
        ground (arith, touch-alone m r alone, ap (λ (x : ModelRow). x.status) (alone e), good, on)
    | inr e ↦ ground (arith, e)
  ]

  abbrev disabled : ModelRow → ModelRow
  disabled r = disable (evaluation opts logs now r) r

  touch-disabled :
      (m r : ModelRow) → ((r.id == m.id) ≡ true → m ≡ r) → touch m (disabled r) ≡ disabled r
  touch-disabled m r alone = elim (Bool-cases (r.id == m.id)) [
    | inl e ↦
        subst (λ x. touch x (disabled r) ≡ disabled r) (sym (alone e))
          (if-same (is_given_up r && r.id == r.id) (disabled r))
    | inr e ↦ ground (arith, e)
  ]

  touch_all-disabled :
      (ms : List ModelRow) (r : ModelRow)
      → IsAlone ms r
      → touch_all (sweeping ms) (disabled r) ≡ disabled r
  touch_all-disabled [] r alone = refl
  touch_all-disabled (m ∷ ms) r alone = elim (Bool-cases (m.status == active)) [
    | inl e ↦ rw e (
        ap (touch_all (sweeping ms)) (touch-disabled m r alone.0) ∙ touch_all-disabled ms r alone.1)
    | inr e ↦ rw e (touch_all-disabled ms r alone.1)
  ]

  touch_all-kept :
      (ms : List ModelRow) (r : ModelRow)
      → (r.status == active && is_given_up r) ≡ false
      → IsAlone ms r
      → touch_all (sweeping ms) r ≡ r
  touch_all-kept [] r good alone = refl
  touch_all-kept (m ∷ ms) r good alone = elim (Bool-cases (m.status == active)) [
    | inl e ↦ rw e (
        ap (touch_all (sweeping ms)) (touch-kept_row m r good alone.0 e)
        ∙ touch_all-kept ms r good alone.1)
    | inr e ↦ rw e (touch_all-kept ms r good alone.1)
  ]

  touch-own : (r : ModelRow) → is_given_up r ≡ true → touch r r ≡ disabled r
  touch-own r bad = rw (bad, (eq_string.agree_iff r.id r.id).1 refl) refl

  -- A row to be given up is either left to a later round or disabled in this one.
  touch-either :
      (m r : ModelRow)
      → is_given_up r ≡ true
      → ((r.id == m.id) ≡ true → m ≡ r)
      → (touch m r ≡ disabled r) ⊎ (touch m r ≡ r)
  touch-either m r bad alone = elim (Bool-cases (r.id == m.id)) [
    | inl e ↦ inl (ground (arith, touch-alone m r alone, bad, e))
    | inr e ↦ inr (ground (arith, e))
  ]

  touch_all-given_up :
      (ms : List ModelRow) (r : ModelRow)
      → (r.status == active) ≡ true
      → is_given_up r ≡ true
      → IsAlone ms r
      → IsIn r ms
      → touch_all (sweeping ms) r ≡ disabled r
  touch_all-given_up [] r on bad alone h = absurd h
  touch_all-given_up (m ∷ ms) r on bad alone (inl same) =
      subst (λ x. touch_all (sweeping (x ∷ ms)) r ≡ disabled r) (sym same)
        (rw on (ap (touch_all (sweeping ms)) (touch-own r bad) ∙ touch_all-disabled ms r alone.1))
  touch_all-given_up (m ∷ ms) r on bad alone (inr more) =
      let rest = touch_all-given_up ms r on bad alone.1 more in
      elim (Bool-cases (m.status == active)) [
        | inr e ↦ rw e rest
        | inl e ↦ rw e (elim (touch-either m r bad alone.0) [
          | inl done ↦ ap (touch_all (sweeping ms)) done ∙ touch_all-disabled ms r alone.1
          | inr open' ↦ ap (touch_all (sweeping ms)) open' ∙ rest
        ])
      ]

  touch_all-judged :
      (ms : List ModelRow) (r : ModelRow)
      → IsAlone ms r
      → IsIn r ms
      → touch_all (sweeping ms) r ≡ judged r
  touch_all-judged ms r alone h = elim (Bool-cases (r.status == active && is_given_up r)) [
    | inl e ↦ rw e (touch_all-given_up ms r (and-both e).0 (and-both e).1 alone h)
    | inr e ↦ rw e (touch_all-kept ms r e alone)
  ]

  map-judged :
      (rows table : List ModelRow)
      → ((r : ModelRow) → IsIn r rows → (IsAlone table r) × IsIn r table)
      → map (touch_all (sweeping table)) rows ≡ map judged rows
  map-judged [] table h = refl
  map-judged (r ∷ rows) table h =
      let (alone, listed) = h r (inl refl) in
      rw (touch_all-judged table r alone listed, map-judged rows table (λ x i. h x (inr i))) refl

  -- In a table where an id belongs to one row, a run of the sequential loop, with its snapshot of
  -- the active models and its updates by id, leaves every row as a judgement of that row alone
  -- would: an active row that is neither whitelisted, forced on, blacklisted nor forced off, and
  -- whose logs are bad, is forced off with the verdict in its notes, and no other row changes.
  pub evaluate_all-judged :
      (table : List ModelRow)
      → All (IsAlone table) table
      → (evaluate_all opts logs now table).0 ≡ map judged table
  unfolding evaluate_all
  evaluate_all-judged table unique =
      sweep-table (sweeping table) table _
      ∙ map-judged table table (λ r i. (All-IsIn _ r table unique i, i))
