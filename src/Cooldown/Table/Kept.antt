-- ===== src/Cooldown/Table/Kept.antt =====
-- The contract for the table of cooldowns. An id that the database gives to a new row is new.
use freellm_gateway.Base.{
  ℕ, String, false, none, some, List, ◌≡◌, refl, ◌∙◌, inl, inr, ◌==◌, ==-refl, eq_string, filter,
  find, All, subst, Option-cases, if_elim, append_nil,
}
use freellm_gateway.Cooldown.{Scope, scope_eq, CooldownInput, CooldownRecord, EngineOptions}
use freellm_gateway.Cooldown.Machine.{benched, gate_of, kept_count, Leaves}
use freellm_gateway.Cooldown.Contract.{Elsewhere, Shows, Lawful}
use freellm_gateway.Cooldown.PrismaStore.{
  Row, matches, map_row, latest, update_where, find_active, rewritten, created, upsert, resolved,
  reset, prisma_store, filter-update_where, matches-eq, matches-rewritten, matches-resolved,
}
use freellm_gateway.Cooldown.Table.{
  IsTable, matches-Elsewhere, some_injective, find-IsIn, filter-snoc, find-none, filter-single,
}
use freellm_gateway.Cooldown.Table.Rows.{
  found_row, update-IsTable, created-matches, created-IsTable, find-update_ne, latest-single,
}

module _ (fresh : List Row → String)
    (is_fresh : (rows : List Row) → All (λ (r : Row). (r.id == fresh rows) ≡ false) rows) where
  upsert-IsTable :
      (now : ℕ) (c : CooldownInput) (rows : List Row)
      → IsTable rows
      → IsTable (upsert fresh now c rows).0
  unfolding upsert
  upsert-IsTable now c rows h = elim (Option-cases (find (matches c.scope c.key) rows)) [
    | inl e ↦ rw (e, upsert) (created-IsTable (fresh rows) now c rows (is_fresh rows) e h)
    | inr (r, e) ↦
        rw (e, upsert)
          (update-IsTable r.id (rewritten c) rows (λ q. refl) (λ s k q. matches-rewritten s k c q)
            h)
  ]

  find-upsert_own :
      (now : ℕ) (c : CooldownInput) (rows : List Row)
      → IsTable rows
      → (x : CooldownRecord) × (find_active c.scope c.key (upsert fresh now c rows).0 ≡ some x)
        × Shows c x
  unfolding upsert find_active
  find-upsert_own now c rows h = elim (Option-cases (find (matches c.scope c.key) rows)) [
    | inl e ↦
        let n = created (fresh rows) now c in
        let own = created-matches (fresh rows) now c c.scope refl in
        let (s, k) = matches-eq c.scope c.key n own in
        (
          map_row n,
          rw
              (
                e,
                upsert,
                filter-snoc (matches c.scope c.key) rows n,
                find-none (matches c.scope c.key) rows e,
                own,
              )
              refl,
          record {
            scope = s;
            key = k;
            reason = refl;
            attempts = refl;
            backoff_ms = refl;
            expires_at = refl;
            half_open = refl;
          },
        )
    | inr (r, e) ↦
        let (_, own) = find-IsIn (matches c.scope c.key) rows r e in
        let (s, k) =
          matches-eq c.scope c.key (rewritten c r) (matches-rewritten c.scope c.key c r ∙ own) in
        (
          map_row (rewritten c r),
          rw
              (
                e,
                upsert,
                filter-update_where c.scope c.key r.id (rewritten c)
                    (matches-rewritten c.scope c.key c) rows,
                filter-single (matches c.scope c.key) rows r (h.single c.scope c.key) e,
                ==-refl r.id,
              )
              refl,
          record {
            scope = s;
            key = k;
            reason = refl;
            attempts = refl;
            backoff_ms = refl;
            expires_at = refl;
            half_open = refl;
          },
        )
  ]

  find-upsert_other :
      (now : ℕ) (c : CooldownInput) (rows : List Row) (scope : Scope) (key : String)
      → IsTable rows
      → Elsewhere c.scope c.key scope key
      → find_active scope key (upsert fresh now c rows).0 ≡ find_active scope key rows
  unfolding upsert find_active
  find-upsert_other now c rows scope key h far =
      elim (Option-cases (find (matches c.scope c.key) rows)) [
        | inl e ↦
            let n = created (fresh rows) now c in
            let other =
              matches-Elsewhere c.scope c.key scope key n far
                (created-matches (fresh rows) now c c.scope refl) in
            rw
              (
                e,
                upsert,
                filter-snoc (matches scope key) rows n,
                other,
                append_nil (filter (matches scope key) rows),
              )
              refl
        | inr (r, e) ↦
            let (there, own) = find-IsIn (matches c.scope c.key) rows r e in
            rw (e, upsert)
              (find-update_ne c.scope c.key scope key (rewritten c) r rows
                (matches-rewritten scope key c) h.ids there own far)
      ]

  -- The table keeps the contract as long as it has at most one row for each key, which every
  -- operation of the store preserves.
  pub prisma-Lawful : Lawful (prisma_store fresh) IsTable
  unfolding reset
  prisma-Lawful = record {
    found = λ scope key rows x h e.
        let (r, _, own, shown) = found_row scope key rows x e in
        let (s, k) = matches-eq scope key r own in
        subst (λ (z : CooldownRecord). (z.scope ≡ scope) × (z.key ≡ key)) shown (s, k);
    upsert-Inv = λ now c rows h carries. upsert-IsTable now c rows h;
    find-upsert = λ now c rows h carries. find-upsert_own now c rows h;
    find-upsert_ne =
        λ now c rows scope key h carries far. find-upsert_other now c rows scope key h far;
    reset-Inv = λ now scope key rows x h e.
        update-IsTable x.id (resolved now) rows (λ q. refl) (λ s k q. matches-resolved s k now q) h;
    find-reset_ne = λ now scope key rows x scope' key' h e far.
        let (r, there, own, shown) = found_row scope key rows x e in
        subst
          (λ (z : CooldownRecord).
            find_active scope' key' (update_where z.id (resolved now) rows)
            ≡ find_active scope' key' rows)
          shown
          (find-update_ne scope key scope' key' (resolved now) r rows
            (matches-resolved scope' key' now) h.ids there own far);
  }

  -- A reset of the table leaves the gate of a key its failures, with a backoff that is over.
  pub prisma-Leaves : (opts : EngineOptions) → Leaves (prisma_store fresh) opts IsTable kept_count
  unfolding reset find_active
  prisma-Leaves opts now scope key rows x h e =
      elim (Option-cases (latest (filter (matches scope key) rows))) [
        | inl n ↦ absurd (option_absurd (rw n at e))
        | inr (r, m) ↦
            let own = some_injective (rw m at e) in
            let one = latest-single (filter (matches scope key) rows) r (h.single scope key) m in
            subst
              (λ (z : CooldownRecord).
                gate_of (find_active scope key (update_where z.id (resolved now) rows))
                ≡ kept_count (gate_of (some z)))
              own
              (rw
                (
                  filter-update_where scope key r.id (resolved now) (matches-resolved scope key now)
                      rows,
                  one,
                  ==-refl r.id,
                )
                (if_elim (λ g. benched r.attempts 0 ≡ kept_count g) r.half_open (λ b. refl)
                  (λ b. refl)))
      ]
    where
      option_absurd : {A : Type 0} {a : A} → none ≡ some a → ⊥
      option_absurd e = cc
