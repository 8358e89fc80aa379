-- ===== src/Cooldown.antt =====
-- packages/routing-core/src/cooldown.ts: `CooldownEngine` over the `CooldownStore` port.
-- The port is a record of operations with an explicit store; `Contract` has the laws that the
-- engine relies on, Memory and PrismaStore are its two implementations. Times are milliseconds.
-- The jitter ratio and the random draw are in millionths.
pub mod Contract
pub mod Memory
pub mod PrismaStore
pub mod Backoff
pub mod Gate
pub mod Tally
pub mod Machine
pub mod Refined
pub mod Table
use Prim.Native.String.{◌++◌}
use freellm_gateway.Base.{
  ℕ, ◌+◌, ◌-◌, ◌*◌, ◌^◌, min, max, String, Bool, true, false, Option, none, some, List, ltb,
  nat_beq, if◌then◌else◌, or_else, ◌≡◌, ◌↔◌, StrictEq, arith,
}
use freellm_gateway.Retry.{million, round_to_zero}

pub data Scope : Type 0 where
  model provider : Scope

abbrev pub scope_ordinal : Scope → ℕ
scope_ordinal model = 0
scope_ordinal provider = 1

pub scope_beq_iff : (a b : Scope) → (nat_beq (scope_ordinal a) (scope_ordinal b) ≡ true) ↔ (a ≡ b)
scope_beq_iff a b = ground arith

instance abbrev pub scope_eq : StrictEq Scope
scope_eq = record {
  agree = λ a b. nat_beq (scope_ordinal a) (scope_ordinal b);
  agree_iff = scope_beq_iff;
}

abbrev pub scope_name : Scope → String
scope_name model = "model"
scope_name provider = "provider"

-- `Omit<CooldownRecord, 'createdAt'>`
pub record CooldownInput : Type 0 where
  pub id : String
  pub scope : Scope
  pub key : String
  pub reason : String
  pub attempts : ℕ
  pub backoff_ms : ℕ
  pub expires_at : ℕ
  pub half_open : Bool

pub record CooldownRecord : Type 0 where
  pub input : CooldownInput
  pub open input use *
  pub created_at : ℕ

-- The operations of `CooldownStore`; `upsert` and `reset` are given the present time.
pub record CooldownStore (S : Type 0) : Type 0 where
  pub list : Option Scope → S → List CooldownRecord
  pub find_active : Scope → String → S → Option CooldownRecord
  pub upsert : ℕ → CooldownInput → S → S × CooldownRecord
  pub reset : ℕ → String → S → S
  pub clear_expired : ℕ → S → S × ℕ

pub record RegisterFailureInput : Type 0 where
  pub scope : Scope
  pub key : String
  pub reason : String
  pub hint_ms : Option ℕ

pub record CooldownDecision : Type 0 where
  pub allowed : Bool
  pub half_open_probe : Bool
  pub cooldown : Option CooldownRecord
  pub reason : Option String

-- `iso` renders a time as `Date.prototype.toISOString` does.
pub record EngineOptions : Type 0 where
  pub base_ms : Option ℕ
  pub max_ms : Option ℕ
  pub jitter_pct : Option ℕ
  pub iso : ℕ → String

abbrev pub default_base : ℕ
default_base = 30000

abbrev pub default_max : ℕ
default_max = 5 * 60000

abbrev pub default_jitter : ℕ
default_jitter = 200000

-- ``cd-${scope}-${key}``
unfoldable pub record_id : Scope → String → String
record_id scope key = "cd-" ++ (scope_name scope ++ ("-" ++ key))

unfoldable pub backoff : EngineOptions → ℕ → Option ℕ → ℕ → ℕ
backoff opts attempts hint_ms random =
    let base = or_else hint_ms (or_else opts.base_ms default_base) in
    let exp = min (or_else opts.max_ms default_max) (base * 2 ^ (attempts - 1)) in
    let span = exp * or_else opts.jitter_pct default_jitter in
    max 1000 (
      round_to_zero (exp * million * million + span * (2 * random)) (span * million)
        (million * million))

module _ {S : Type 0} (store : CooldownStore S) (opts : EngineOptions) where
  abbrev refused : CooldownRecord → String → CooldownDecision
  refused r reason = record {
    allowed = false;
    half_open_probe = false;
    cooldown = some r;
    reason = some reason;
  }

  unfoldable pub check : ℕ → Scope → String → S → S × CooldownDecision
  check now scope key s = elim (store.find_active scope key s) [
    | none ↦ (s, record { allowed = true; half_open_probe = false; cooldown = none; reason = none })
    | some r ↦
        if ltb now r.expires_at
        then (s, refused r ("cooldown active until " ++ opts.iso r.expires_at))
        else if r.half_open
        then (s, refused r "half-open probe in flight")
        else (
          (store.upsert now (record r.input { half_open = true }) s).0,
          record {
            allowed = true;
            half_open_probe = true;
            cooldown = some r;
            reason = some "half-open probe";
          },
        )
  ]

  -- What `registerFailure` writes over what `findActive` returned.
  unfoldable pub failure_record :
      ℕ → ℕ → RegisterFailureInput → Option CooldownRecord → CooldownInput
  failure_record now random input existing = record {
    id = elim existing [ none ↦ record_id input.scope input.key | some r ↦ r.id ];
    scope = input.scope;
    key = input.key;
    reason = input.reason;
    attempts = attempts;
    backoff_ms = backoff_ms;
    expires_at = now + backoff_ms;
    half_open = false;
  }
    where
      attempts : ℕ
      attempts = elim existing [ none ↦ 0 | some r ↦ r.attempts ] + 1

      backoff_ms : ℕ
      backoff_ms = backoff opts attempts input.hint_ms random

  unfoldable pub register_failure : ℕ → ℕ → RegisterFailureInput → S → S × CooldownRecord
  register_failure now random input s =
      store.upsert now (failure_record now random input (store.find_active input.scope input.key s))
        s

  unfoldable pub register_success : ℕ → Scope → String → S → S
  register_success now scope key s = elim (store.find_active scope key s) [
    | none ↦ s
    | some r ↦ store.reset now r.id s
  ]

  unfoldable pub list_active : Option Scope → S → List CooldownRecord
  list_active scope s = store.list scope s
