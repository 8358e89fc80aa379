-- ===== src/Retention/Purged.antt =====
-- What a purge removes, under the policy that was set.
use freellm_gateway.Base.{
  ℕ, ◌+◌, ◌*◌, ◌≤◌, Bool, true, false, not, ◌&&◌, some, none, ◌⊎◌, ◌↔◌, inl, inr, List, [], ◌∷◌,
  filter, length, ltb, ◌≡◌, refl, sym, subst, ap, ◌∙◌, arith, IsIn, Bool-cases, Option,
}
use freellm_gateway.Retention.Policy.{
  IsBounded, get_policy-IsBounded, get_policy-as_input, accepted-inr, inr_injective,
  next_policy-IsBounded,
}
use freellm_gateway.Retention.{
  RetentionPolicy, Input, Db, AuditLog, PlaygroundSession, ErrorEventRow, get_policy, as_input,
  next_policy, set_policy, ms_per_day, is_older, is_resolved_before, purge, Failing, run_purge,
  PurgeReport, stored,
}

module _ {A : Type 0} (p : A → Bool) (a : A) where
  IsIn-filter : (xs : List A) → IsIn a (filter p xs) → IsIn a xs × (p a ≡ true)
  IsIn-filter [] i = absurd i
  IsIn-filter (x ∷ xs) i = elim (Bool-cases (p x)) [
    | inl yes' ↦ elim (rw yes' at i) [
      | inl e ↦ (inl e, subst (λ y. p y ≡ true) e yes')
      | inr j ↦ let k = IsIn-filter xs j in (inr k.0, k.1)
    ]
    | inr no' ↦ let k = IsIn-filter xs (rw no' at i) in (inr k.0, k.1)
  ]

  filter-IsIn : (xs : List A) → IsIn a xs → p a ≡ true → IsIn a (filter p xs)
  filter-IsIn [] i h = absurd i
  filter-IsIn (x ∷ xs) (inl e) h = rw (subst (λ y. p y ≡ true) (sym e) h) (inl e)
  filter-IsIn (x ∷ xs) (inr i) h = elim (Bool-cases (p x)) [
    | inl yes' ↦ rw yes' (inr (filter-IsIn xs i h))
    | inr no' ↦ rw no' (filter-IsIn xs i h)
  ]

length-parts :
    {A : Type 0} (p : A → Bool) (xs : List A)
    → length xs ≡ length (filter p xs) + length (filter (λ x. not (p x)) xs)
length-parts p [] = refl
length-parts p (x ∷ xs) = ground (arith, length-parts p xs)

-- After a purge exactly the rows are left that are to stay, and the others were counted.
abbrev pub Keeps : {A : Type 0} → (A → Type 0) → ℕ → List A → List A → Type 0
Keeps {A} Stays count before after =
    ((r : A) → IsIn r after ↔ (IsIn r before × Stays r)) × (length before ≡ count + length after)

abbrev pub Stays : {A : Type 0} → (A → Type 0) → ℕ → Bool → A → Type 0
Stays IsYoung days fails r = (days ≡ 0) ⊎ (fails ≡ true) ⊎ IsYoung r

purge-Keeps :
    {A : Type 0} (days : ℕ) (fails : Bool) (test : A → Bool) (IsYoung : A → Type 0)
    → ((r : A) → (test r ≡ false) ↔ IsYoung r)
    → (rows : List A)
    → Keeps
        (Stays IsYoung days fails)
        (purge days fails test rows).0
        rows
        (purge days fails test rows).1
unfolding purge
purge-Keeps {A} days fails test IsYoung h rows = elim (Bool-cases (ltb 0 days && not fails)) [
  | inl made ↦ rw made (
    (λ r. (
      (λ i.
          let k = IsIn-filter (λ x. not (test x)) r rows i in
          (k.0, inr (inr ((h r).0 (ground (arith, k.1)))))),
      (λ k. elim k.1 [
        | inl none_due ↦ absurd (ground (arith, made, none_due))
        | inr (inl failed) ↦ absurd (ground (arith, made, failed))
        | inr (inr young) ↦
            filter-IsIn (λ x. not (test x)) r rows k.0 (ground (arith, (h r).1 young))
      ]),
    )),
    length-parts test rows,
  )
  | inr skipped ↦ rw skipped ((λ r. ((λ i. (i, skips skipped)), (λ k. k.0))), omega arith)
]
  where
    skips : {P : Type 0} → (ltb 0 days && not fails) ≡ false → (days ≡ 0) ⊎ (fails ≡ true) ⊎ P
    skips e = elim (Bool-cases fails) [
      | inl failed ↦ inr (inl failed)
      | inr fine ↦ inl (ground (arith, e, fine))
    ]

abbrev pub IsRecent : ℕ → ℕ → ℕ → Type 0
IsRecent now days at = now ≤ at + days * ms_per_day

-- An error event that is not resolved, or was resolved lately.
abbrev pub IsOpenOrRecent : ℕ → ℕ → Option ℕ → Type 0
IsOpenOrRecent now days resolved_at = (t : ℕ) → resolved_at ≡ some t → IsRecent now days t

is_older_iff : (now days at : ℕ) → (is_older now days at ≡ false) ↔ IsRecent now days at
is_older_iff now days at = (λ e. ground (arith, e), λ h. ground (arith, h))

is_resolved_before_iff :
    (now days : ℕ) (resolved_at : Option ℕ)
    → (is_resolved_before now days resolved_at ≡ false) ↔ IsOpenOrRecent now days resolved_at
is_resolved_before_iff now days none = (λ e t h. absurd (cc), λ h. refl)
is_resolved_before_iff now days (some at) = (
  λ e t h. (is_older_iff now days t).0 (ground (arith, e, h)),
  λ h. (is_older_iff now days at).1 (h at refl),
)

-- A purge under a policy: what the tables keep, and what the report counts.
pub record IsPurged (p : RetentionPolicy) (failing : Failing) (now : ℕ) (before : Db)
    (report : PurgeReport) (after : Db) : Type 0 where
  pub policy : report.policy ≡ p
  pub audit_logs :
      Keeps
        (Stays
          (λ (r : AuditLog). IsRecent now p.admin_audit_retention_days r.created_at)
          p.admin_audit_retention_days
          failing.audit_logs)
        report.audit_purged
        before.audit_logs
        after.audit_logs
  pub sessions :
      Keeps
        (Stays
          (λ (r : PlaygroundSession).
            IsRecent now p.playground_session_retention_days r.last_message_at)
          p.playground_session_retention_days
          failing.sessions)
        report.sessions_purged
        before.sessions
        after.sessions
  pub error_events :
      Keeps
        (Stays
          (λ (r : ErrorEventRow). IsOpenOrRecent now p.error_event_retention_days r.resolved_at)
          p.error_event_retention_days
          failing.error_events)
        report.error_events_purged
        before.error_events
        after.error_events

run_purge-IsPurged :
    (failing : Failing) (now : ℕ) (db : Db)
    → IsPurged
        (get_policy db.setting)
        failing
        now
        db
        (run_purge failing now db).0
        (run_purge failing now db).1
unfolding run_purge
run_purge-IsPurged failing now db =
    let p = get_policy db.setting in
    record {
      policy = refl;
      audit_logs =
          purge-Keeps p.admin_audit_retention_days failing.audit_logs _ _
            (λ r. is_older_iff now p.admin_audit_retention_days r.created_at) db.audit_logs;
      sessions =
          purge-Keeps p.playground_session_retention_days failing.sessions _ _
            (λ r. is_older_iff now p.playground_session_retention_days r.last_message_at)
            db.sessions;
      error_events =
          purge-Keeps p.error_event_retention_days failing.error_events _ _
            (λ r. is_resolved_before_iff now p.error_event_retention_days r.resolved_at)
            db.error_events;
    }

-- A policy that `setPolicy` accepts, whatever the setting held before, is one of at most ten years,
-- and a purge on any tables with the setting that it left follows that policy, at any time and
-- whichever deletions the database fails to make: of each table exactly the rows stay that are not
-- older than the days of the policy, all of them where the days are 0 or the deletion fails, an error
-- event that is not resolved in any case; and the report counts the rows that went.
pub set_policy-run_purge :
    (input : Input) (p : RetentionPolicy) (before after db : Db)
    → set_policy input before ≡ inr (p, after)
    → db.setting ≡ after.setting
    → (failing : Failing) (now : ℕ)
    → IsBounded p
      × IsPurged p failing now db (run_purge failing now db).0 (run_purge failing now db).1
unfolding set_policy
set_policy-run_purge input p before after db e same failing now =
    let (next, chosen, saved) = accepted-inr (next_policy input (get_policy before.setting)) _ e in
    let bounded = next_policy-IsBounded input _ chosen (get_policy-IsBounded before.setting) in
    let both = inr_injective saved in
    let policy : next ≡ p = ap (λ x. x.0) both in
    let written : db.setting ≡ stored (as_input next) = same ∙ sym (ap (λ x. x.1.setting) both) in
    let read : get_policy db.setting ≡ p =
      ap get_policy written ∙ get_policy-as_input next bounded ∙ policy in
    (
      subst IsBounded policy bounded,
      subst
          (λ q. IsPurged q failing now db (run_purge failing now db).0 (run_purge failing now db).1)
          read (run_purge-IsPurged failing now db),
    )
