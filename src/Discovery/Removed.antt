-- ===== src/Discovery/Removed.antt =====
-- What the removals at the end of a diff do to a row, and the diff as a whole.
use freellm_gateway.Base.{
  ℕ, String, Bool, true, false, ◌||◌, Option, none, some, List, [], ◌∷◌, ◌≡◌, refl, sym, ◌∙◌, ap,
  subst, ◌⊎◌, inl, inr, arith, All, All-append, IsIn, ◌==◌, eq_nat, eq_string, Bool-cases,
  if◌then◌else◌, is_some,
}
use freellm_gateway.Status.{ModelStatus, status_eq, next_model_status}
use freellm_gateway.Discovery.{
  Codec, DiscoveredModel, ModelRow, removed, seen, flat, discovered_events, removed_events,
  diff_snapshots,
}
use freellm_gateway.Discovery.Apply.{touch}
use freellm_gateway.Discovery.Touched.{
  touch_all, touch_all-append, Avoids, touch_all-Avoids, refreshed,
}
use freellm_gateway.Discovery.Renewed.{listed, renewed, flat-renewed}
use freellm_gateway.Discovery.Rows.{IsOwn, IsDistinct}

module _ (C : Codec) (new_id : String → String) (now : ℕ) where
  abbrev pub removed_row : ModelRow C → ModelRow C
  removed_row r = record r { status = ModelStatus.removed; removed_at = some now }

  -- The row of a model that is no longer listed.
  abbrev pub gone : ModelRow C → ModelRow C
  gone r = if r.status == ModelStatus.removed then r else removed_row r

  pub seen-listed :
      (discovered : List (DiscoveredModel C)) (r : ModelRow C)
      → seen C discovered r.upstream_id ≡ is_some (listed C new_id now discovered r)
  seen-listed [] r = refl
  seen-listed (dm ∷ dms) r = elim (Bool-cases (dm.upstream_id == r.upstream_id)) [
    | inl e ↦ rw e refl
    | inr e ↦ rw e (seen-listed dms r)
  ]

  -- The removals of other rows.
  removed_events-Avoids :
      (discovered : List (DiscoveredModel C)) (r q : ModelRow C)
      → (r.id == q.id) ≡ false
      → All (Avoids C new_id now r.id) (removed_events C discovered q)
  unfolding removed_events
  removed_events-Avoids discovered r q apart = ground (arith, apart)

  -- Rows that are listed, or were removed before, are left alone.
  kept :
      (discovered : List (DiscoveredModel C)) (r q : ModelRow C)
      → (seen C discovered r.upstream_id || r.status == ModelStatus.removed) ≡ true
      → ((r.id == q.id) ≡ true → q ≡ r)
      → All (Avoids C new_id now r.id) (removed_events C discovered q)
  unfolding removed_events
  kept discovered r q stays one = elim (Bool-cases (r.id == q.id)) [
    | inr e ↦ removed_events-Avoids discovered r q e
    | inl e ↦
        subst (λ x. All (Avoids C new_id now r.id) (removed_events C discovered x)) (sym (one e))
          (ground (arith, stays))
  ]

  flat-kept :
      (discovered : List (DiscoveredModel C)) (r : ModelRow C) (qs : List (ModelRow C))
      → (seen C discovered r.upstream_id || r.status == ModelStatus.removed) ≡ true
      → IsOwn C qs r
      → All (Avoids C new_id now r.id) (flat C (removed_events C discovered) qs)
  flat-kept discovered r [] stays own = tt
  flat-kept discovered r (q ∷ qs) stays own =
      All-append _ (removed_events C discovered q) _ (kept discovered r q stays own.0.0)
        (flat-kept discovered r qs stays own.1)

  -- A row that is to go is taken out by its own removal, and a removed row stays as it is.
  own_removal :
      (discovered : List (DiscoveredModel C)) (r : ModelRow C)
      → (seen C discovered r.upstream_id || r.status == ModelStatus.removed) ≡ false
      → removed_events C discovered r ≡ removed r.id ∷ []
  unfolding removed_events
  own_removal discovered r goes = ground (arith, goes)

  remove :
      (r x : ModelRow C)
      → x.id ≡ r.id
      → touch_all C new_id now (removed r.id ∷ []) x ≡ removed_row x
  unfolding touch next_model_status
  remove r x e = rw ((eq_string.agree_iff x.id r.id).1 e) refl

  abbrev Stays : List (DiscoveredModel C) → ModelRow C → Bool → Type 0
  Stays discovered r b = (seen C discovered r.upstream_id || r.status == ModelStatus.removed) ≡ b

  -- One round of the removals, for a row that is to go.
  removal-either :
      (discovered : List (DiscoveredModel C)) (r q : ModelRow C)
      → Stays discovered r false
      → ((r.id == q.id) ≡ true → q ≡ r)
      → All (Avoids C new_id now r.id) (removed_events C discovered q)
        ⊎ (removed_events C discovered q ≡ removed r.id ∷ [])
  removal-either discovered r q goes one = elim (Bool-cases (r.id == q.id)) [
    | inr e ↦ inl (removed_events-Avoids discovered r q e)
    | inl e ↦ inr (ap (removed_events C discovered) (one e) ∙ own_removal discovered r goes)
  ]

  flat-gone :
      (discovered : List (DiscoveredModel C)) (r : ModelRow C) (qs : List (ModelRow C))
      → Stays discovered r false
      → IsOwn C qs r
      → touch_all C new_id now (flat C (removed_events C discovered) qs) (removed_row r)
        ≡ removed_row r
  flat-gone discovered r [] goes own = refl
  flat-gone discovered r (q ∷ qs) goes own =
      touch_all-append C new_id now (removed_events C discovered q) _ (removed_row r)
      ∙ ap (touch_all C new_id now (flat C (removed_events C discovered) qs))
          (elim (removal-either discovered r q goes own.0.0) [
            | inl avoids ↦ touch_all-Avoids C new_id now _ (removed_row r) avoids
            | inr e ↦
                ap (λ evs. touch_all C new_id now evs (removed_row r)) e
                ∙ remove r (removed_row r) refl
          ])
      ∙ flat-gone discovered r qs goes own.1

  flat-removed :
      (discovered : List (DiscoveredModel C)) (r : ModelRow C) (qs : List (ModelRow C))
      → Stays discovered r false
      → IsOwn C qs r
      → IsIn r qs
      → touch_all C new_id now (flat C (removed_events C discovered) qs) r ≡ removed_row r
  flat-removed discovered r [] goes own h = absurd h
  flat-removed discovered r (q ∷ qs) goes own (inl same) =
      touch_all-append C new_id now (removed_events C discovered q) _ r
      ∙ ap (touch_all C new_id now (flat C (removed_events C discovered) qs)) (
          ap (λ evs. touch_all C new_id now evs r)
            (ap (removed_events C discovered) same ∙ own_removal discovered r goes)
          ∙ remove r r refl)
      ∙ flat-gone discovered r qs goes own.1
  flat-removed discovered r (q ∷ qs) goes own (inr more) =
      touch_all-append C new_id now (removed_events C discovered q) _ r
      ∙ elim (removal-either discovered r q goes own.0.0) [
        | inl avoids ↦
            ap (touch_all C new_id now (flat C (removed_events C discovered) qs))
              (touch_all-Avoids C new_id now _ r avoids)
            ∙ flat-removed discovered r qs goes own.1 more
        | inr e ↦
            ap (touch_all C new_id now (flat C (removed_events C discovered) qs))
              (ap (λ evs. touch_all C new_id now evs r) e ∙ remove r r refl)
            ∙ flat-gone discovered r qs goes own.1
      ]

  -- The row after all events of a diff.
  abbrev pub settled : Option (DiscoveredModel C) → ModelRow C → ModelRow C
  settled none r = gone r
  settled (some dm) r = refreshed C new_id now dm r

  removals-renewed :
      (discovered : List (DiscoveredModel C)) (existing : List (ModelRow C)) (r : ModelRow C)
      (dm : Option (DiscoveredModel C))
      → IsOwn C existing r
      → IsIn r existing
      → listed C new_id now discovered r ≡ dm
      → touch_all C new_id now
          (flat C (removed_events C discovered) existing)
          (renewed C new_id now dm r)
        ≡ settled dm r
  removals-renewed discovered existing r (some dm) own h e =
      let stays : Stays discovered r true =
        ground (arith, seen-listed discovered r, ap is_some e) in
      touch_all-Avoids C new_id now _ (refreshed C new_id now dm r)
        (flat-kept discovered r existing stays own)
  removals-renewed discovered existing r none own h e =
      elim (Bool-cases (r.status == ModelStatus.removed)) [
        | inl was ↦
            let stays : Stays discovered r true = ground (arith, was) in
            rw was (touch_all-Avoids C new_id now _ r (flat-kept discovered r existing stays own))
        | inr is ↦
            let goes : Stays discovered r false =
              ground (arith, seen-listed discovered r, ap is_some e, is) in
            rw is (flat-removed discovered r existing goes own h)
      ]

  pub touch_all-diff_snapshots :
      (discovered : List (DiscoveredModel C)) (existing : List (ModelRow C)) (r : ModelRow C)
      → IsDistinct C discovered
      → IsOwn C existing r
      → IsIn r existing
      → touch_all C new_id now (diff_snapshots C discovered existing) r
        ≡ settled (listed C new_id now discovered r) r
  unfolding diff_snapshots
  touch_all-diff_snapshots discovered existing r distinct own h =
      touch_all-append C new_id now (flat C (discovered_events C existing) discovered) _ r
      ∙ ap (touch_all C new_id now (flat C (removed_events C discovered) existing))
          (flat-renewed C new_id now existing r discovered own h distinct)
      ∙ removals-renewed discovered existing r _ own h refl
