-- ===== src/Retention.antt =====
-- apps/api/src/services/retention-policy.service.ts, with the two `purgeOlderThan` of
-- admin-audit.service.ts and playground-session.service.ts. A row has an id and the columns that the
-- purge reads, times are in milliseconds. Policy is about the stored policy, Purged about what a purge removes.
pub mod Policy
pub mod Purged
use freellm_gateway.Base.{
  ℕ, ◌-◌, ◌*◌, ◌/◌, String, Bool, true, false, not, ◌&&◌, Option, none, some, ◌⊎◌, inl, inr, List,
  filter, length, if◌then◌else◌, ltb,
}
use freellm_gateway.Retry.{million}
use freellm_gateway.Retry.Settings.{JsValue, absent, nothing, junk, num, neg, text}

pub record RetentionPolicy : Type 0 where
  pub admin_audit_retention_days : ℕ
  pub playground_session_retention_days : ℕ
  pub error_event_retention_days : ℕ

-- `Partial<RetentionPolicy>`; here `absent` is undefined and `nothing` is null.
pub record Input : Type 0 where
  pub admin_audit_days : JsValue
  pub playground_session_days : JsValue
  pub error_event_days : JsValue

-- The setting's row, with what `JSON.parse` gives for its text; `unreadable` is a text that it
-- refuses, or null.
pub data Setting : Type 0 where
  no_setting unreadable : Setting
  stored : Input → Setting

pub record AuditLog : Type 0 where
  pub id : String
  pub created_at : ℕ

pub record PlaygroundSession : Type 0 where
  pub id : String
  pub last_message_at : ℕ

pub record ErrorEventRow : Type 0 where
  pub id : String
  pub resolved_at : Option ℕ

pub record Db : Type 0 where
  pub setting : Setting
  pub audit_logs : List AuditLog
  pub sessions : List PlaygroundSession
  pub error_events : List ErrorEventRow

-- The refusals of `validateDays`.
pub data Refusal : Type 0 where
  not_a_number is_negative is_above_maximum : Refusal

abbrev pub max_retention_days : ℕ
max_retention_days = 3650

abbrev pub default_retention : RetentionPolicy
default_retention = record {
  admin_audit_retention_days = 90;
  playground_session_retention_days = 30;
  error_event_retention_days = 180;
}

unfoldable pub normalize_days : JsValue → ℕ → ℕ
normalize_days (num n) default_days =
    if ltb max_retention_days (n / million) then max_retention_days else n / million
normalize_days (neg n) default_days = 0
normalize_days _ default_days = default_days

unfoldable pub validate_days : JsValue → Refusal ⊎ ℕ
validate_days (num n) =
    if ltb max_retention_days (n / million) then inl is_above_maximum else inr (n / million)
validate_days (neg n) = inl is_negative
validate_days _ = inl not_a_number

-- A field of the next policy, from the input's and the current one.
unfoldable pub next_days : JsValue → ℕ → Refusal ⊎ ℕ
unfolding validate_days
next_days absent current = inr current
next_days v current = validate_days v

unfoldable pub get_policy : Setting → RetentionPolicy
unfolding normalize_days
get_policy (stored parsed) = record {
  admin_audit_retention_days =
      normalize_days parsed.admin_audit_days default_retention.admin_audit_retention_days;
  playground_session_retention_days =
      normalize_days parsed.playground_session_days
        default_retention.playground_session_retention_days;
  error_event_retention_days =
      normalize_days parsed.error_event_days default_retention.error_event_retention_days;
}
get_policy _ = default_retention

-- What `JSON.parse` gives for `JSON.stringify(policy)`.
abbrev pub as_input : RetentionPolicy → Input
as_input p = record {
  admin_audit_days = num (p.admin_audit_retention_days * million);
  playground_session_days = num (p.playground_session_retention_days * million);
  error_event_days = num (p.error_event_retention_days * million);
}

abbrev pub accepted : {A B : Type 0} → Refusal ⊎ A → (A → Refusal ⊎ B) → Refusal ⊎ B
accepted (inl r) f = inl r
accepted (inr a) f = f a

unfoldable pub next_policy : Input → RetentionPolicy → Refusal ⊎ RetentionPolicy
unfolding next_days
next_policy input current =
    accepted (next_days input.admin_audit_days current.admin_audit_retention_days) λ a.
      accepted (next_days input.playground_session_days current.playground_session_retention_days)
        λ s. accepted (next_days input.error_event_days current.error_event_retention_days) λ e.
          inr (record {
            admin_audit_retention_days = a;
            playground_session_retention_days = s;
            error_event_retention_days = e;
          })

unfoldable pub set_policy : Input → Db → Refusal ⊎ (RetentionPolicy × Db)
unfolding next_policy get_policy
set_policy input db =
    accepted (next_policy input (get_policy db.setting))
      λ next. inr (next, record db { setting = stored (as_input next) })

abbrev pub ms_per_day : ℕ
ms_per_day = 86400000

-- `{ lt: cutoff }`. A cutoff before 1970 has no row before it, and neither has 0.
abbrev pub is_older : ℕ → ℕ → ℕ → Bool
is_older now days at = ltb at (now - days * ms_per_day)

-- `{ not: null, lt: cutoff }`
abbrev pub is_resolved_before : ℕ → ℕ → Option ℕ → Bool
is_resolved_before now days none = false
is_resolved_before now days (some at) = is_older now days at

-- A purge of one table, under its two guards: it is not for 0 days, and a failure of the database
-- is logged and counts as no row.
unfoldable pub purge {ℓ} : {A : Type ℓ} → ℕ → Bool → (A → Bool) → List A → ℕ × List A
purge days fails test rows =
    if ltb 0 days && not fails
    then (length (filter test rows), filter (λ r. not (test r)) rows)
    else (0, rows)

-- The deletions that the database fails to make.
pub record Failing : Type 0 where
  pub audit_logs : Bool
  pub sessions : Bool
  pub error_events : Bool

pub record PurgeReport : Type 0 where
  pub policy : RetentionPolicy
  pub audit_purged : ℕ
  pub sessions_purged : ℕ
  pub error_events_purged : ℕ
  pub generated_at : ℕ

-- The purge at one time.
unfoldable pub run_purge : Failing → ℕ → Db → PurgeReport × Db
unfolding get_policy purge
run_purge failing now db =
    let p = get_policy db.setting in
    let audit : ℕ × List AuditLog =
      purge p.admin_audit_retention_days failing.audit_logs
        (λ r. is_older now p.admin_audit_retention_days r.created_at) db.audit_logs in
    let kept : ℕ × List PlaygroundSession =
      purge p.playground_session_retention_days failing.sessions
        (λ r. is_older now p.playground_session_retention_days r.last_message_at) db.sessions in
    let events : ℕ × List ErrorEventRow =
      purge p.error_event_retention_days failing.error_events
        (λ r. is_resolved_before now p.error_event_retention_days r.resolved_at) db.error_events in
    (
      record {
        policy = p;
        audit_purged = audit.0;
        sessions_purged = kept.0;
        error_events_purged = events.0;
        generated_at = now;
      },
      record db { audit_logs = audit.1; sessions = kept.1; error_events = events.1 },
    )
