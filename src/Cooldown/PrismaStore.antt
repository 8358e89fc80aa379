-- ===== src/Cooldown/PrismaStore.antt =====
-- apps/api/src/services/prisma-cooldown-store.ts: the store over the `cooldowns` table.
-- The table is the list of its rows; `fresh` is the id that the database gives to a new row. The
-- foreign keys of modelId and providerId are left out: the keys stand for ids of rows that are there,
-- and `create` for another key, which throws in the program, is not modelled.
use mathlib.Core.Option
use freellm_gateway.Base.{
  ℕ, String, Bool, true, false, not, ◌&&◌, Option, none, some, List, [], ◌∷◌, ◌++◌, ◌≡◌, refl, ap,
  if◌then◌else◌, leb, ltb, ◌==◌, eq_string, or_else, is_some, map, filter, arith, length, ==-refl,
  take, find,
}
use freellm_gateway.Base.Sort.{sort_by}
use freellm_gateway.Cooldown.{
  Scope, model, provider, scope_eq, CooldownInput, CooldownRecord, CooldownStore, EngineOptions,
  register_success,
}
use freellm_gateway.Cooldown.Gate.{run_checks, run_checks_half_open, check_expired}
use freellm_gateway.Base.{filter-head}

pub record Row : Type 0 where
  pub id : String
  pub scope : Scope
  pub model_id : Option String
  pub provider_id : Option String
  pub reason : String
  pub attempts : ℕ
  pub backoff_ms : ℕ
  pub expires_at : ℕ
  pub half_open : Bool
  pub created_at : ℕ
  pub resolved_at : Option ℕ

abbrev pub holds : Option String → String → Bool
holds none key = false
holds (some k) key = k == key

-- `where: { scope: 'model', modelId: key }`, or the same for a provider.
unfoldable pub matches : Scope → String → Row → Bool
matches model key r = (r.scope == model) && holds r.model_id key
matches provider key r = (r.scope == provider) && holds r.provider_id key

abbrev pub row_key : Scope → Row → String
row_key model r = or_else r.model_id ""
row_key provider r = or_else r.provider_id ""

abbrev pub map_row : Row → CooldownRecord
map_row r = record {
  input = record {
    id = r.id;
    scope = r.scope;
    key = row_key r.scope r;
    reason = r.reason;
    attempts = r.attempts;
    backoff_ms = r.backoff_ms;
    expires_at = r.expires_at;
    half_open = r.half_open;
  };
  created_at = r.created_at;
}

-- The first row by `orderBy: { expiresAt: 'desc' }`.
abbrev pub latest : List Row → Option Row
latest [] = none
latest (r ∷ rs) = elim (latest rs) [
  | none ↦ some r
  | some q ↦ if ltb r.expires_at q.expires_at then some q else some r
]

abbrev pub update_where : String → (Row → Row) → List Row → List Row
update_where id change = map (λ r. if r.id == id then change r else r)

unfoldable pub list : Option Scope → List Row → List CooldownRecord
list scope rows = map map_row (
    take 200 (
      sort_by (λ a b. ltb b.expires_at a.expires_at)
        (filter (λ r. elim scope [ none ↦ true | some s ↦ r.scope == s ]) rows)))

unfoldable pub find_active : Scope → String → List Row → Option CooldownRecord
find_active scope key rows = Option.map map_row (latest (filter (matches scope key) rows))

-- `data: { reason, attempts, backoffMs, expiresAt, halfOpen }`
abbrev pub rewritten : CooldownInput → Row → Row
rewritten r row = record row {
  reason = r.reason;
  attempts = r.attempts;
  backoff_ms = r.backoff_ms;
  expires_at = r.expires_at;
  half_open = r.half_open;
}

abbrev pub created : String → ℕ → CooldownInput → Row
created id now r = record {
  id = id;
  scope = r.scope;
  model_id = elim r.scope [ model ↦ some r.key | provider ↦ none ];
  provider_id = elim r.scope [ model ↦ none | provider ↦ some r.key ];
  reason = r.reason;
  attempts = r.attempts;
  backoff_ms = r.backoff_ms;
  expires_at = r.expires_at;
  half_open = r.half_open;
  created_at = now;
  resolved_at = none;
}

-- `findFirst` with no order takes a row of the table's own order.
unfoldable pub upsert :
    (List Row → String) → ℕ → CooldownInput → List Row → List Row × CooldownRecord
upsert fresh now r rows = elim (find (matches r.scope r.key) rows) [
  | some existing ↦ (update_where existing.id (rewritten r) rows, map_row (rewritten r existing))
  | none ↦ (rows ++ created (fresh rows) now r ∷ [], map_row (created (fresh rows) now r))
]

-- `data: { resolvedAt: new Date(), halfOpen: false, expiresAt: new Date(0) }`
abbrev pub resolved : ℕ → Row → Row
resolved now row = record row { resolved_at = some now; half_open = false; expires_at = 0 }

unfoldable pub reset : ℕ → String → List Row → List Row
reset now id rows = update_where id (resolved now) rows

unfoldable pub clear_expired : ℕ → List Row → List Row × ℕ
clear_expired now rows = (filter (λ r. not (gone r)) rows, length (filter gone rows))
  where
    gone : Row → Bool
    gone r = leb r.expires_at now && not r.half_open && is_some r.resolved_at

abbrev pub prisma_store : (List Row → String) → CooldownStore (List Row)
prisma_store fresh = record {
  list = list;
  find_active = find_active;
  upsert = upsert fresh;
  reset = reset;
  clear_expired = clear_expired;
}

module _ (scope : Scope) (key : String) (id : String) (change : Row → Row)
    (keeps : (r : Row) → matches scope key (change r) ≡ matches scope key r) where
  pub filter-update_where :
      (rows : List Row)
      → filter (matches scope key) (update_where id change rows)
        ≡ update_where id change (filter (matches scope key) rows)
  filter-update_where [] = refl
  filter-update_where (r ∷ rows) = ground (arith, keeps r, filter-update_where rows)

pub matches-eq :
    (scope : Scope) (key : String) (r : Row)
    → matches scope key r ≡ true
    → (r.scope ≡ scope) × (row_key r.scope r ≡ key)
unfolding matches
matches-eq model key r h =
    ground
      (arith, scope_eq.agree_iff r.scope model, eq_string.agree_iff (or_else r.model_id "") key)
matches-eq provider key r h =
    ground (
      arith,
      scope_eq.agree_iff r.scope provider,
      eq_string.agree_iff (or_else r.provider_id "") key,
    )

pub matches-rewritten :
    (scope : Scope) (key : String) (c : CooldownInput) (q : Row)
    → matches scope key (rewritten c q) ≡ matches scope key q
unfolding matches
matches-rewritten model key c q = refl
matches-rewritten provider key c q = refl

pub matches-resolved :
    (scope : Scope) (key : String) (now : ℕ) (q : Row)
    → matches scope key (resolved now q) ≡ matches scope key q
unfolding matches
matches-resolved model key now q = refl
matches-resolved provider key now q = refl

module _ (fresh : List Row → String) (opts : EngineOptions) (scope : Scope) (key : String) where
  find_active-single :
      (rows : List Row) (r : Row)
      → filter (matches scope key) rows ≡ r ∷ []
      → find_active scope key rows ≡ some (map_row r)
  unfolding find_active
  find_active-single rows r e = rw e

  update-single :
      (change : Row → Row) (rows : List Row) (r : Row)
      → ((q : Row) → matches scope key (change q) ≡ matches scope key q)
      → filter (matches scope key) rows ≡ r ∷ []
      → filter (matches scope key) (update_where r.id change rows) ≡ change r ∷ []
  update-single change rows r keeps e =
      rw (filter-update_where scope key r.id change keeps rows, e, ==-refl r.id)

  upsert-single :
      (now : ℕ) (c : CooldownInput) (rows : List Row) (r : Row)
      → (c.scope ≡ scope) × (c.key ≡ key)
      → filter (matches scope key) rows ≡ r ∷ []
      → filter (matches scope key) (upsert fresh now c rows).0 ≡ rewritten c r ∷ []
  unfolding upsert
  upsert-single now c rows r (s, k) e =
      rw (there, upsert) (update-single (rewritten c) rows r (matches-rewritten scope key c) e)
    where
      there : find (matches c.scope c.key) rows ≡ some r
      there = rw (s, k) (filter-head (matches scope key) rows e).1

  -- The Prisma store does not forget on success: where a key has exactly one row, the first check
  -- after `registerSuccess` is let through and every later one is refused until an outcome is
  -- registered, just as at the end of a backoff.
  pub run_checks-register_success :
      (now t : ℕ) (ts : List ℕ) (rows : List Row) (r : Row)
      → filter (matches scope key) rows ≡ r ∷ []
      → (run_checks
          (prisma_store fresh)
          opts
          scope
          key
          (t ∷ ts)
          (register_success (prisma_store fresh) opts now scope key rows)).1
        ≡ true ∷ map (λ _. false) ts
  unfolding run_checks register_success
  run_checks-register_success now t ts rows r e =
      let rows' = reset now r.id rows in
      let r' = resolved now r in
      let success : register_success (prisma_store fresh) opts now scope key rows ≡ rows' =
        rw (find_active-single rows r e, register_success) in
      let kept : filter (matches scope key) rows' ≡ r' ∷ [] =
        unfold reset in update-single (resolved now) rows r (matches-resolved scope key now) e in
      let here = matches-eq scope key r' (filter-head (matches scope key) rows' kept).0 in
      let (allowed, _, next) =
        check_expired (prisma_store fresh) opts scope key t rows' (map_row r')
          (find_active-single rows' r' kept) (omega arith) refl in
      let probe = record (map_row r').input { half_open = true } in
      let again = upsert-single t probe rows' r' here kept in
      rw (success, allowed, next)
        (ap (λ (l : List Bool). true ∷ l)
          (ap (λ (u : List Row × List Bool). u.1)
            (run_checks_half_open (prisma_store fresh) opts scope key ts _ _
              (find_active-single _ (rewritten probe r') again) refl)))
