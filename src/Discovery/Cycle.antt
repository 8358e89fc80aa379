-- ===== src/Discovery/Cycle.antt =====
-- What a whole discovery cycle, `applyDiff` of `diffSnapshots`, leaves in the rows that a provider
-- had, and what the next cycle finds.
use freellm_gateway.Base.{
  ℕ, String, true, false, Option, none, some, List, [], ◌∷◌, ◌++◌, map, ◌≡◌, refl, sym, ◌∙◌, ap,
  inl, inr, arith, All, All-IsIn, map-map, map-same, map-append, map-agree, append_nil,
  append_assoc, ◌==◌, eq_nat, eq_string, Bool-cases, if◌then◌else◌, is_some,
}
use freellm_gateway.Status.{ModelStatus, active, status_eq}
use freellm_gateway.Discovery.{
  Codec, ModelCapabilities, DiscoveredModel, ModelRow, ModelChangeEvent, status_changed, seen,
  is_paid_now, is_gone, caps_differ, row_events, diff_snapshots, diff_capabilities, gained,
}
use freellm_gateway.Discovery.Apply.{touch, apply_events, apply_diff, touch_seen, created}
use freellm_gateway.Discovery.Touched.{touch_all, refreshed}
use freellm_gateway.Discovery.Rows.{IsOwn, IsDistinct}
use freellm_gateway.Discovery.Renewed.{listed}
use freellm_gateway.Discovery.Removed.{gone, settled, seen-listed, touch_all-diff_snapshots}

module _ (C : Codec) (new_id : String → String) (now : ℕ) where
  -- What a cycle makes of a row: with the listed model of its upstream id, its context length is
  -- the listed one, its capabilities are where they differed, a free row whose model is now paid
  -- gets the new price and is no longer free, and its status is active if it was removed or paid_now
  -- before, paid_now if it has just become paid, and as it was otherwise. With none, it is removed,
  -- unless it was.
  abbrev pub synced : Option (DiscoveredModel C) → ModelRow C → ModelRow C
  synced none r = gone C new_id now r
  synced (some dm) r = record (refreshed C new_id now dm r) { last_seen_at = some now }

  apply_events-touch_all :
      (evs : List (ModelChangeEvent C)) (table : List (ModelRow C))
      → (rest : List (ModelRow C)) × (apply_events C new_id now evs table
          ≡ map (touch_all C new_id now evs) table ++ rest)
  unfolding apply_events
  apply_events-touch_all [] table = ([], sym (append_nil _ ∙ map-same (λ r. r) table (λ r. refl)))
  apply_events-touch_all (ev ∷ evs) table =
      let (rest, e) =
        apply_events-touch_all evs (map (touch C new_id now ev) table ++ created C new_id now ev) in
      let f = touch_all C new_id now evs in
      (
        map f (created C new_id now ev) ++ rest,
        e
            ∙ ap (λ xs. xs ++ rest)
                (map-append f (map (touch C new_id now ev) table) (created C new_id now ev)
                  ∙ ap (λ xs. xs ++ map f (created C new_id now ev))
                      (map-map (touch C new_id now ev) f table))
            ∙ append_assoc (map (λ r. f (touch C new_id now ev r)) table) _ rest,
      )

  seen-synced :
      (discovered : List (DiscoveredModel C)) (r : ModelRow C) (dm : Option (DiscoveredModel C))
      → listed C new_id now discovered r ≡ dm
      → touch_seen C new_id now discovered (settled C new_id now dm r) ≡ synced dm r
  seen-synced discovered r none e =
      let t : seen C discovered r.upstream_id ≡ false =
        seen-listed C new_id now discovered r ∙ ap is_some e in
      elim (Bool-cases (r.status == ModelStatus.removed)) [
        | inl was ↦ rw (was, t) refl
        | inr is ↦ rw (is, t) refl
      ]
  seen-synced discovered r (some dm) e =
      let t : seen C discovered r.upstream_id ≡ true =
        seen-listed C new_id now discovered r ∙ ap is_some e in
      rw t refl

  -- A cycle over a list that names no model twice, in a table where neither an id nor an upstream id
  -- belongs to two rows: every row that was there becomes what `synced` says of it alone, whatever
  -- the events of the others are, and new rows come behind.
  pub apply_diff-synced :
      (discovered : List (DiscoveredModel C)) (existing : List (ModelRow C))
      → IsDistinct C discovered
      → All (IsOwn C existing) existing
      → (rest : List (ModelRow C)) × (apply_diff C new_id now discovered
            (diff_snapshots C discovered existing)
            existing
          ≡ map (λ r. synced (listed C new_id now discovered r) r) existing ++ rest)
  unfolding apply_diff
  apply_diff-synced discovered existing distinct own =
      let f = touch_all C new_id now (diff_snapshots C discovered existing) in
      let g = touch_seen C new_id now discovered in
      let (rest, e) = apply_events-touch_all (diff_snapshots C discovered existing) existing in
      (
        map g rest,
        ap (map g) e
            ∙ map-append g (map f existing) rest
            ∙ ap (λ xs. xs ++ map g rest)
                (map-map f g existing
                  ∙ map-agree (λ r. g (f r)) (λ r. synced (listed C new_id now discovered r) r)
                      existing
                      (λ r i.
                        ap g (
                          touch_all-diff_snapshots C new_id now discovered existing r distinct
                            (All-IsIn _ r existing own i) i)
                        ∙ seen-synced discovered r _ refl)),
      )

  gained_self : (c : ModelCapabilities) → gained c c ≡ []
  unfolding gained
  gained_self c = ground arith

  caps-same :
      ((c : ModelCapabilities) → C.parse (C.stringify c) ≡ c)
      → (dm : DiscoveredModel C) (r : ModelRow C) → caps_differ C dm (synced (some dm) r) ≡ false
  unfolding diff_capabilities
  caps-same trip dm r = elim (Bool-cases (caps_differ C dm r)) [
    | inl differs ↦ rw (differs, trip dm.capabilities, gained_self dm.capabilities) refl
    | inr same ↦ rw same same
  ]

  -- Where capabilities read back as they were written, the next cycle over the same model finds
  -- nothing to change in the row that the last one left, but for one thing: a row that the last one
  -- marked paid_now goes back to active.
  pub row_events-synced :
      ((c : ModelCapabilities) → C.parse (C.stringify c) ≡ c)
      → (dm : DiscoveredModel C) (r : ModelRow C)
      → row_events C dm (synced (some dm) r) ≡ (
          if is_gone C r.status
          then []
          else if is_paid_now C dm r
          then status_changed r.id ModelStatus.paid_now active ∷ []
          else [])
  unfolding row_events
  row_events-synced trip dm r = rw (caps-same trip dm r) (elim (Bool-cases (is_gone C r.status)) [
    | inl e ↦
        rw e (ground (arith, e, (eq_nat.agree_iff dm.context_length dm.context_length).1 refl))
    | inr e ↦
        rw e (ground (arith, e, (eq_nat.agree_iff dm.context_length dm.context_length).1 refl))
  ])
