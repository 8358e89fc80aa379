-- ===== src/Scorer/Recorded.antt =====
-- The counters and the composite of the stored scores after a run of attempts.
use freellm_gateway.Base.{
  ℕ, ◌+◌, String, Bool, false, not, ◌&&◌, Option, none, some, List, [], ◌∷◌, ◌≡◌, refl, sym, ◌∙◌,
  ap, inl, inr, arith, if◌then◌else◌, ◌==◌, eq_string, or_else, filter, length, Bool-cases,
}
use freellm_gateway.Base.Dict.{lookup, insert, lookup-insert}
use freellm_gateway.Number.{Number}
use freellm_gateway.Scorer.Sample.{ScoreSampleInput, is_rate_limited, apply_score_sample}
use freellm_gateway.Scorer.Update.{
  ScoreRow, ModelColumns, seed_row, written, record_attempt, record_all,
}

-- The attempts on a model that pass a test.
abbrev pub tally : String → (ScoreSampleInput → Bool) → List (String × ScoreSampleInput) → ℕ
tally id p attempts = length (filter (λ a. a.0 == id && p a.1) attempts)

abbrev one : Bool → ℕ
one b = if b then 1 else 0

tally-cons :
    (id : String) (p : ScoreSampleInput → Bool) (at : String) (s : ScoreSampleInput)
    (rest : List (String × ScoreSampleInput))
    → tally id p ((at, s) ∷ rest) ≡ one (at == id && p s) + tally id p rest
tally-cons id p at s rest = ground arith

module _ (N : Number) where
  abbrev pub row_of : String → List (String × ScoreRow N) → ScoreRow N
  row_of id table = or_else (lookup id table) (seed_row N)

  -- A row has the counters of another with the given numbers added.
  pub record Grown (before after : ScoreRow N) (ok failed limited : ℕ) : Type 0 where
    pub successes : after.success_count_24h ≡ before.success_count_24h + ok
    pub failures : after.failure_count_24h ≡ before.failure_count_24h + failed
    pub rate_limits : after.rate_limit_24h ≡ before.rate_limit_24h + limited

  Grown-trans :
      {a b c : ScoreRow N} {ok failed limited ok' failed' limited' : ℕ}
      → Grown a b ok failed limited
      → Grown b c ok' failed' limited'
      → Grown a c (ok + ok') (failed + failed') (limited + limited')
  Grown-trans p q = record {
    successes = omega (arith, p.successes, q.successes);
    failures = omega (arith, p.failures, q.failures);
    rate_limits = omega (arith, p.rate_limits, q.rate_limits);
  }

  written-Grown :
      (id : String) (m : ModelColumns N) (s : ScoreSampleInput) (existing : Option (ScoreRow N))
      → Grown
          (or_else existing (seed_row N))
          (written N id m s existing)
          (one s.ok)
          (one (not s.ok))
          (one (is_rate_limited s))
  unfolding written apply_score_sample
  written-Grown id m s existing = record {
    successes = ground arith;
    failures = ground arith;
    rate_limits = ground arith;
  }

  row_of-insert :
      (id at : String) (r : ScoreRow N) (table : List (String × ScoreRow N))
      → row_of id (insert at r table) ≡ (if at == id then r else row_of id table)
  row_of-insert id at r table =
      rw (sym (lookup-insert id at r table))
        (elim (Bool-cases (at == id)) [ inl same ↦ rw same refl | inr other ↦ rw other refl ])

  -- The row of another model, whether the model of the attempt is found or not.
  row_of-other :
      (id at : String)
      → (at == id) ≡ false
      → (s : ScoreSampleInput) (table : List (String × ScoreRow N))
        (found : Option (ModelColumns N))
      → row_of id (elim found [
        | none ↦ table
        | some m ↦ insert at (written N at m s (lookup at table)) table
      ])
        ≡ row_of id table
  row_of-other id at other s table none = refl
  row_of-other id at other s table (some m) = row_of-insert id at _ table ∙ rw other refl

  module _ (find_model : String → Option (ModelColumns N)) where
    record_attempt-known :
        (id : String) (m : ModelColumns N)
        → find_model id ≡ some m
        → (s : ScoreSampleInput) (table : List (String × ScoreRow N))
        → record_attempt N find_model id s table
          ≡ insert id (written N id m s (lookup id table)) table
    unfolding record_attempt
    record_attempt-known id m known s table =
        ap
          (λ (found : Option (ModelColumns N)). elim found [
            | none ↦ table
            | some m ↦ insert id (written N id m s (lookup id table)) table
          ])
          known

    row_of-record_attempt :
        (id : String) (m : ModelColumns N)
        → find_model id ≡ some m
        → (at : String) (s : ScoreSampleInput) (table : List (String × ScoreRow N))
        → row_of id (record_attempt N find_model at s table)
          ≡ (if at == id then written N id m s (lookup id table) else row_of id table)
    unfolding record_attempt
    row_of-record_attempt id m known at s table = elim (Bool-cases (at == id)) [
      | inl same ↦
          let e = (eq_string.agree_iff at id).0 same in
          ap (row_of id) (record_attempt-known at m (ap find_model e ∙ known) s table)
          ∙ row_of-insert id at (written N at m s (lookup at table)) table
          ∙ rw same (ap (λ (k : String). written N k m s (lookup k table)) e)
      | inr other ↦ row_of-other id at other s table (find_model at) ∙ rw other refl
    ]

    record_attempt-Grown :
        (id : String) (m : ModelColumns N)
        → find_model id ≡ some m
        → (at : String) (s : ScoreSampleInput) (table : List (String × ScoreRow N))
        → Grown
            (row_of id table)
            (row_of id (record_attempt N find_model at s table))
            (one (at == id && s.ok))
            (one (at == id && not s.ok))
            (one (at == id && is_rate_limited s))
    record_attempt-Grown id m known at s table =
        let own = row_of-record_attempt id m known at s table in
        elim (Bool-cases (at == id)) [
          | inl same ↦ rw (own, same) (written-Grown id m s (lookup id table))
          | inr other ↦
              rw (own, other)
                (record {
                  successes = omega arith;
                  failures = omega arith;
                  rate_limits = omega arith;
                })
        ]

    -- After any run of attempts on any models, the counters of a model that exists have grown by the
    -- number of its own attempts that succeeded, that failed and that were rate limited.
    pub record_all-Grown :
        (id : String) (m : ModelColumns N)
        → find_model id ≡ some m
        → (attempts : List (String × ScoreSampleInput)) (table : List (String × ScoreRow N))
        → Grown
            (row_of id table)
            (row_of id (record_all N find_model attempts table))
            (tally id (λ s. s.ok) attempts)
            (tally id (λ s. not s.ok) attempts)
            (tally id is_rate_limited attempts)
    unfolding record_all
    record_all-Grown id m known [] table = record {
      successes = omega arith;
      failures = omega arith;
      rate_limits = omega arith;
    }
    record_all-Grown id m known ((at, s) ∷ rest) table =
        rw
          (
            tally-cons id (λ s. s.ok) at s rest,
            tally-cons id (λ s. not s.ok) at s rest,
            tally-cons id is_rate_limited at s rest,
          )
          (Grown-trans (record_attempt-Grown id m known at s table)
            (record_all-Grown id m known rest (record_attempt N find_model at s table)))
