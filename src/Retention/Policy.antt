-- ===== src/Retention/Policy.antt =====
-- The stored policy: its bounds, and that what was written is read back.
use freellm_gateway.Base.{ℕ, ◌*◌, ◌/◌, ◌≤◌, ◌⊎◌, inl, inr, ◌≡◌, refl, subst, arith}
use freellm_gateway.Retry.{million}
use freellm_gateway.Retry.Settings.{JsValue, num}
use freellm_gateway.Retention.{
  RetentionPolicy, Input, Setting, stored, no_setting, unreadable, max_retention_days,
  normalize_days, validate_days, next_days, get_policy, as_input, accepted, next_policy, Refusal,
}

pub record IsBounded (p : RetentionPolicy) : Type 0 where
  pub audit_logs : p.admin_audit_retention_days ≤ max_retention_days
  pub sessions : p.playground_session_retention_days ≤ max_retention_days
  pub error_events : p.error_event_retention_days ≤ max_retention_days

normalize_days-le :
    (v : JsValue) (d : ℕ) → d ≤ max_retention_days → normalize_days v d ≤ max_retention_days
unfolding normalize_days
normalize_days-le v d h = ground arith

pub get_policy-IsBounded : (s : Setting) → IsBounded (get_policy s)
unfolding get_policy
get_policy-IsBounded (stored input) = record {
  audit_logs = normalize_days-le input.admin_audit_days 90 (omega arith);
  sessions = normalize_days-le input.playground_session_days 30 (omega arith);
  error_events = normalize_days-le input.error_event_days 180 (omega arith);
}
get_policy-IsBounded no_setting = record {
  audit_logs = omega arith;
  sessions = omega arith;
  error_events = omega arith;
}
get_policy-IsBounded unreadable = record {
  audit_logs = omega arith;
  sessions = omega arith;
  error_events = omega arith;
}

normalize_days-whole : (n d : ℕ) → n ≤ max_retention_days → normalize_days (num (n * million)) d ≡ n
unfolding normalize_days
normalize_days-whole n d h = rw (whole n) (ground arith)
  where
    whole : (n : ℕ) → n * million / million ≡ n
    whole n = omega arith

pub get_policy-as_input : (p : RetentionPolicy) → IsBounded p → get_policy (stored (as_input p)) ≡ p
unfolding get_policy
get_policy-as_input p h =
    rw
      (
        normalize_days-whole p.admin_audit_retention_days 90 h.audit_logs,
        normalize_days-whole p.playground_session_retention_days 30 h.sessions,
        normalize_days-whole p.error_event_retention_days 180 h.error_events,
      )
      refl

next_days-le :
    (v : JsValue) (current : ℕ) {d : ℕ}
    → next_days v current ≡ inr d
    → current ≤ max_retention_days
    → d ≤ max_retention_days
unfolding next_days validate_days
next_days-le v current e h = ground arith

pub accepted-inr :
    {A B : Type 0} (m : Refusal ⊎ A) (f : A → Refusal ⊎ B) {b : B}
    → accepted m f ≡ inr b
    → (a : A) × (m ≡ inr a) × (f a ≡ inr b)
accepted-inr (inl r) f e = absurd (cc)
accepted-inr (inr a) f e = (a, refl, e)

pub inr_injective : {A : Type 0} {x y : A} → Path (Refusal ⊎ A) (inr x) (inr y) → x ≡ y
inr_injective e = cc

pub next_policy-IsBounded :
    (input : Input) (current : RetentionPolicy) {p : RetentionPolicy}
    → next_policy input current ≡ inr p
    → IsBounded current
    → IsBounded p
unfolding next_policy
next_policy-IsBounded input current e h =
    let (a, ea, rest) =
      accepted-inr (next_days input.admin_audit_days current.admin_audit_retention_days) _ e in
    let (s, es, rest') =
      accepted-inr
        (next_days input.playground_session_days current.playground_session_retention_days) _
        rest in
    let (d, ed, last) =
      accepted-inr (next_days input.error_event_days current.error_event_retention_days) _ rest' in
    subst IsBounded (inr_injective last) (record {
      audit_logs = next_days-le input.admin_audit_days _ ea h.audit_logs;
      sessions = next_days-le input.playground_session_days _ es h.sessions;
      error_events = next_days-le input.error_event_days _ ed h.error_events;
    })
