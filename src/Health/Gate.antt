-- ===== src/Health/Gate.antt =====
-- The cooldowns of health checks, and what the router's gate sees of them.
use mathlib.Core.Option
use freellm_gateway.Base.{
  ℕ, String, Bool, false, List, [], ◌∷◌, ◌++◌, map, filter, find, ◌≡◌, refl, ◌∙◌, ap, ◌==◌,
  eq_string, if◌then◌else◌, if_elim, option_elim, All, find-All, Bool-cases, inl, inr, is_some,
}
use freellm_gateway.Cooldown.{provider}
use freellm_gateway.Cooldown.PrismaStore.{Row, matches, map_row, latest, find_active}
use freellm_gateway.Health.{
  Report, ProviderRow, Db, is_standing, failure_cooldown, updated, cool, record_check,
}

-- No provider has the key for an id.
abbrev pub IsNoId : String → List ProviderRow → Type 0
IsNoId key providers = All (λ (p : ProviderRow). (p.id == key) ≡ false) providers

filter-snoc :
    (f : Row → Bool) (rows : List Row) (r : Row)
    → f r ≡ false
    → filter f (rows ++ r ∷ []) ≡ filter f rows
filter-snoc f [] r e = rw e refl
filter-snoc f (q ∷ qs) r e = elim (Bool-cases (f q)) [
  | inl yes' ↦ rw yes' (ap (λ l. q ∷ l) (filter-snoc f qs r e))
  | inr no' ↦ rw no' (filter-snoc f qs r e)
]

-- The rows of the gate for a provider's key.
abbrev gate_rows : String → List Row → List Row
gate_rows key rows = filter (matches provider key) rows

cool-gate_rows :
    (backoff_ms : ℕ) (fresh : String) (taken : ℕ) (report : Report) (p : ProviderRow)
    (rows : List Row) (key : String)
    → (p.id == key) ≡ false
    → gate_rows key (cool backoff_ms fresh taken report p rows) ≡ gate_rows key rows
unfolding cool matches
cool-gate_rows backoff_ms fresh taken report p rows key other =
    if_elim (λ rs. gate_rows key rs ≡ gate_rows key rows) report.ok (λ b. refl)
      λ b.
        if_elim (λ rs. gate_rows key rs ≡ gate_rows key rows)
          (is_some (find (is_standing taken p.id) rows)) (λ c. refl)
          λ c.
            filter-snoc (matches provider key) rows
              (failure_cooldown backoff_ms fresh taken report p) other

-- A check of a provider: the id of a new row, the milliseconds it took, the time, the slug and the
-- report.
pub record Probe : Type 0 where
  pub fresh : String
  pub elapsed : ℕ
  pub taken : ℕ
  pub slug : String
  pub report : Report

unfoldable pub probe_all : ℕ → List Probe → Db → Db
probe_all backoff_ms [] db = db
probe_all backoff_ms (c ∷ cs) db =
    probe_all backoff_ms cs (record_check backoff_ms c.fresh c.elapsed c.taken c.slug c.report db)

IsNoId-map :
    (key : String) (test : ProviderRow → Bool) (f : ProviderRow → ProviderRow)
    → ((p : ProviderRow) → (f p).id ≡ p.id)
    → (providers : List ProviderRow) → IsNoId key providers
    → IsNoId key (map (λ p. if test p then f p else p) providers)
IsNoId-map key test f same [] h = tt
IsNoId-map key test f same (p ∷ ps) h = (
  if_elim (λ (q : ProviderRow). (q.id == key) ≡ false) (test p)
      (λ b. ap (λ i. i == key) (same p) ∙ h.0) (λ b. h.0),
  IsNoId-map key test f same ps h.1,
)

updated-id : (taken : ℕ) (report : Report) (p : ProviderRow) → (updated taken report p).id ≡ p.id
unfolding updated
updated-id taken report p =
    if_elim (λ (q : ProviderRow). q.id ≡ p.id) report.ok (λ b. refl) (λ b. refl)

-- What a check leaves of what the gate sees under a key that is no id.
record Unseen (key : String) (before after : Db) : Type 0 where
  ids : IsNoId key after.providers
  rows : gate_rows key after.cooldowns ≡ gate_rows key before.cooldowns

record_check-Unseen :
    (backoff_ms : ℕ) (c : Probe) (db : Db) (key : String)
    → IsNoId key db.providers
    → Unseen key db (record_check backoff_ms c.fresh c.elapsed c.taken c.slug c.report db)
unfolding record_check
record_check-Unseen backoff_ms c db key none_there =
    option_elim (Unseen key db) (find (λ (p : ProviderRow). p.slug == c.slug) db.providers)
      (λ e. record { ids = none_there; rows = refl })
      λ p e. record {
        ids =
            IsNoId-map key (λ q. q.id == p.id) (updated c.taken c.report)
              (updated-id c.taken c.report) db.providers none_there;
        rows = cool-gate_rows backoff_ms c.fresh c.taken c.report p db.cooldowns key (
            find-All (λ (q : ProviderRow). (q.id == key) ≡ false)
              (λ (q : ProviderRow). q.slug == c.slug) db.providers none_there e);
      }

-- The gate of the router looks a provider's cooldown up by its slug. Through any health checks,
-- failed ones included, it finds there what it found before, as long as the slug is no provider's
-- id: the cooldowns of health checks are filed under ids.
pub find_active-probe_all :
    (backoff_ms : ℕ) (probes : List Probe) (db : Db) (slug : String)
    → IsNoId slug db.providers
    → find_active provider slug (probe_all backoff_ms probes db).cooldowns
      ≡ find_active provider slug db.cooldowns
unfolding probe_all find_active
find_active-probe_all backoff_ms [] db slug none_there = refl
find_active-probe_all backoff_ms (c ∷ cs) db slug none_there =
    let db' = record_check backoff_ms c.fresh c.elapsed c.taken c.slug c.report db in
    let u = record_check-Unseen backoff_ms c db slug none_there in
    find_active-probe_all backoff_ms cs db' slug u.ids
    ∙ ap (λ rs. Option.map map_row (latest rs)) u.rows
