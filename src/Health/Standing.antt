-- ===== src/Health/Standing.antt =====
-- How many cooldowns of a provider stand at once.
use freellm_gateway.Base.{
  ℕ, ◌+◌, ◌≤◌, String, false, List, [], ◌∷◌, ◌++◌, filter, find, length, ◌≡◌, refl, arith, ◌==◌,
  eq_string, if_elim, option_elim, subst, Bool-cases, inl, inr, is_some,
}
use freellm_gateway.Cooldown.PrismaStore.{Row, matches}
use freellm_gateway.Health.{
  Report, ProviderRow, Db, is_standing, failure_cooldown, cool, record_check,
}
use freellm_gateway.Health.Gate.{Probe, probe_all}

abbrev pub standing : ℕ → String → List Row → ℕ
standing at id rows = length (filter (is_standing at id) rows)

standing-snoc :
    (at : ℕ) (id : String) (rows : List Row) (r : Row)
    → standing at id (rows ++ r ∷ []) ≤ standing at id rows + 1
standing-snoc at id [] r = ground arith
standing-snoc at id (q ∷ qs) r = ground (arith, standing-snoc at id qs r)

-- What stands at a time has stood since any time before it.
standing_later :
    (early at : ℕ)
    → early ≤ at
    → (id : String) (rows : List Row) → standing at id rows ≤ standing early id rows
unfolding matches
standing_later early at h id [] = omega arith
standing_later early at h id (r ∷ rs) = ground (arith, h, standing_later early at h id rs)

standing_none :
    (at : ℕ) (id : String) (rows : List Row)
    → is_some (find (is_standing at id) rows) ≡ false
    → standing at id rows ≡ 0
standing_none at id [] e = refl
standing_none at id (r ∷ rs) e = elim (Bool-cases (is_standing at id r)) [
  | inl yes' ↦ absurd (ground (arith, rw yes' at e))
  | inr no' ↦ rw no' (standing_none at id rs (rw no' at e))
]

standing-other :
    (at : ℕ) (id : String) (rows : List Row) (r : Row)
    → is_standing at id r ≡ false
    → standing at id (rows ++ r ∷ []) ≡ standing at id rows
standing-other at id [] r e = rw e refl
standing-other at id (q ∷ qs) r e = ground (arith, standing-other at id qs r e)

-- From a time on, at most one cooldown of each provider stands.
abbrev IsSingle : ℕ → List Row → Type 0
IsSingle since rows = (id : String) (at : ℕ) → since ≤ at → standing at id rows ≤ 1

cool-IsSingle :
    (backoff_ms : ℕ) (fresh : String) (since taken : ℕ) (report : Report) (p : ProviderRow)
    (rows : List Row)
    → since ≤ taken
    → IsSingle since rows
    → IsSingle taken (cool backoff_ms fresh taken report p rows)
unfolding cool matches
cool-IsSingle backoff_ms fresh since taken report p rows h inv id at later =
    let kept = inv id at (omega (arith, h, later)) in
    if_elim (λ rs. standing at id rs ≤ 1) report.ok (λ b. kept)
      λ b.
        if_elim (λ rs. standing at id rs ≤ 1) (is_some (find (is_standing taken p.id) rows))
          (λ c. kept)
          λ c.
            let r = failure_cooldown backoff_ms fresh taken report p in
            elim (Bool-cases (p.id == id)) [
              | inl its ↦
                  let before = standing_none taken p.id rows c in
                  let now = standing_later taken at later p.id rows in
                  let added = standing-snoc at p.id rows r in
                  subst (λ i. standing at i (rows ++ r ∷ []) ≤ 1)
                    ((eq_string.agree_iff p.id id).0 its) (omega (arith, before, now, added))
              | inr other ↦ rw (standing-other at id rows r (rw other refl)) kept
            ]

-- Each check is no earlier than the one before it.
abbrev pub IsOrdered : ℕ → List Probe → Type 0
IsOrdered since [] = Unit
IsOrdered since (c ∷ cs) = (since ≤ c.taken) × IsOrdered c.taken cs

abbrev pub last_taken : ℕ → List Probe → ℕ
last_taken since [] = since
last_taken since (c ∷ cs) = last_taken c.taken cs

-- Health checks that follow each other in time never stack cooldowns: if at most one of each
-- provider stands from some time on, this is so after them as well, from the last check on.
probe_all-IsSingle :
    (backoff_ms since : ℕ) (probes : List Probe) (db : Db)
    → IsOrdered since probes
    → IsSingle since db.cooldowns
    → IsSingle (last_taken since probes) (probe_all backoff_ms probes db).cooldowns
unfolding probe_all record_check
probe_all-IsSingle backoff_ms since [] db ordered inv = inv
probe_all-IsSingle backoff_ms since (c ∷ cs) db ordered inv =
    probe_all-IsSingle backoff_ms c.taken cs _ ordered.1 (
      option_elim (λ (d : Db). IsSingle c.taken d.cooldowns)
        (find (λ (p : ProviderRow). p.slug == c.slug) db.providers)
        (λ e id at later. inv id at (omega (arith, ordered.0, later)))
        (λ p e.
          cool-IsSingle backoff_ms c.fresh since c.taken c.report p db.cooldowns ordered.0 inv))
