-- ===== src/Witnesses/Retentions.antt =====
-- A retention policy that is set, and a purge under it.
use freellm_gateway.Base.{◌*◌, true, false, some, none, [], ◌∷◌, ◌≡◌, refl}
use freellm_gateway.Retry.Settings.{absent, num}
use freellm_gateway.Retention.{
  RetentionPolicy, Input, no_setting, stored, as_input, Db, Failing, get_policy, set_policy,
  run_purge, ms_per_day,
}
use freellm_gateway.Retention.Policy.{IsBounded}
use freellm_gateway.Retention.Purged.{IsPurged, set_policy-run_purge}

abbrev input : Input
input = record {
  admin_audit_days = absent;
  playground_session_days = num 7500000;
  error_event_days = num 0;
}

abbrev policy : RetentionPolicy
policy = record {
  admin_audit_retention_days = 90;
  playground_session_retention_days = 7;
  error_event_retention_days = 0;
}

abbrev before : Db
before = record {
  setting = no_setting;
  audit_logs = record { id = "a1"; created_at = 1000 } ∷ [];
  sessions =
      record { id = "s1"; last_message_at = 1000 }
      ∷ record { id = "s2"; last_message_at = 9 * ms_per_day }
      ∷ [];
  error_events =
      record { id = "e1"; resolved_at = some 5 } ∷ record { id = "e2"; resolved_at = none } ∷ [];
}

abbrev after : Db
after = record before { setting = stored (as_input policy) }

abbrev failing : Failing
failing = record { audit_logs = true; sessions = false; error_events = false }

set_policy-run_purge_example :
    IsBounded policy
    × IsPurged policy failing 1000000000 after
        (run_purge failing 1000000000 after).0
        (run_purge failing 1000000000 after).1
unfolding set_policy freellm_gateway.Retention.next_policy get_policy
    freellm_gateway.Retention.next_days freellm_gateway.Retention.validate_days
set_policy-run_purge_example =
    set_policy-run_purge input policy before after after refl refl failing 1000000000

-- One session is older than a week.
one_purged : (run_purge failing 1000000000 after).0.sessions_purged ≡ 1
unfolding run_purge get_policy freellm_gateway.Retention.normalize_days
    freellm_gateway.Retention.purge
one_purged = refl
