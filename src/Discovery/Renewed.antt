-- ===== src/Discovery/Renewed.antt =====
-- What the events of the listed models make of a row.
use freellm_gateway.Base.{
  ℕ, String, true, false, Option, none, some, List, [], ◌∷◌, ◌≡◌, refl, ◌∙◌, ap, subst, inl, inr,
  arith, All, All-append, IsIn, ◌==◌, eq_nat, eq_string, Bool-cases, Option-cases, find,
}
use freellm_gateway.Status.{status_eq}
use freellm_gateway.Discovery.{
  Codec, DiscoveredModel, ModelRow, seen, flat, row_events, discovered_events, by_upstream_id,
}
use freellm_gateway.Discovery.Touched.{
  touch_all, touch_all-append, Avoids, touch_all-Avoids, touch_all-row_events, row_events-Avoids,
  refreshed,
}
use freellm_gateway.Discovery.Rows.{IsOwn, IsDistinct, by_upstream_id-own, by_upstream_id-All}

module _ (C : Codec) (new_id : String → String) (now : ℕ) where
  other_id :
      (r : ModelRow C) (dm : DiscoveredModel C) (q : ModelRow C)
      → ((r.id == q.id) ≡ true → q ≡ r)
      → (q.upstream_id == dm.upstream_id) ≡ true
      → (dm.upstream_id == r.upstream_id) ≡ false
      → (r.id == q.id) ≡ false
  other_id r dm q one same apart = elim (Bool-cases (r.id == q.id)) [
    | inr e ↦ e
    | inl e ↦ absurd (
        ground (
          arith,
          ap (λ (x : ModelRow C). x.upstream_id) (one e),
          eq_string.agree_iff q.upstream_id dm.upstream_id,
          eq_string.agree_iff dm.upstream_id r.upstream_id,
          same,
          apart,
        ))
  ]

  -- Only the events of its own model are about a row.
  discovered_events-Avoids :
      (existing : List (ModelRow C)) (r : ModelRow C) (dm : DiscoveredModel C)
      → IsOwn C existing r
      → (dm.upstream_id == r.upstream_id) ≡ false
      → All (Avoids C new_id now r.id) (discovered_events C existing dm)
  unfolding discovered_events
  discovered_events-Avoids existing r dm own apart =
      elim (Option-cases (by_upstream_id C dm.upstream_id existing)) [
        | inl e ↦ rw (e, discovered_events) (tt, tt)
        | inr (q, e) ↦
            rw (e, discovered_events)
              (let (one, same) =
                  by_upstream_id-All C
                    (λ q.
                      ((r.id == q.id) ≡ true → q ≡ r)
                      × ((q.upstream_id == r.upstream_id) ≡ true → q ≡ r))
                    dm.upstream_id existing q own e in
                row_events-Avoids C new_id now r.id dm q (other_id r dm q one.0 same apart))
      ]

  flat-Avoids :
      (existing : List (ModelRow C)) (r : ModelRow C) (dms : List (DiscoveredModel C))
      → IsOwn C existing r
      → seen C dms r.upstream_id ≡ false
      → All (Avoids C new_id now r.id) (flat C (discovered_events C existing) dms)
  flat-Avoids existing r [] own h = tt
  flat-Avoids existing r (dm ∷ dms) own h =
      All-append _ (discovered_events C existing dm) _
        (discovered_events-Avoids existing r dm own (ground (arith, h)))
        (flat-Avoids existing r dms own (ground (arith, h)))

  -- The listed model of a row.
  abbrev pub listed : List (DiscoveredModel C) → ModelRow C → Option (DiscoveredModel C)
  listed discovered r =
      find (λ (dm : DiscoveredModel C). dm.upstream_id == r.upstream_id) discovered

  -- What the events of the listed models make of a row.
  abbrev pub renewed : Option (DiscoveredModel C) → ModelRow C → ModelRow C
  renewed none r = r
  renewed (some dm) r = refreshed C new_id now dm r

  discovered_events-own :
      (existing : List (ModelRow C)) (r : ModelRow C) (dm : DiscoveredModel C)
      → IsOwn C existing r
      → IsIn r existing
      → dm.upstream_id ≡ r.upstream_id
      → discovered_events C existing dm ≡ row_events C dm r
  unfolding discovered_events
  discovered_events-own existing r dm own h same =
      let e : by_upstream_id C dm.upstream_id existing ≡ some r =
        ap (λ u. by_upstream_id C u existing) same ∙ by_upstream_id-own C existing r own h in
      rw (e, discovered_events) refl

  pub flat-renewed :
      (existing : List (ModelRow C)) (r : ModelRow C) (dms : List (DiscoveredModel C))
      → IsOwn C existing r
      → IsIn r existing
      → IsDistinct C dms
      → touch_all C new_id now (flat C (discovered_events C existing) dms) r
        ≡ renewed (listed dms r) r
  flat-renewed existing r [] own h d = refl
  flat-renewed existing r (dm ∷ dms) own h d =
      touch_all-append C new_id now (discovered_events C existing dm) _ r
      ∙ elim (Bool-cases (dm.upstream_id == r.upstream_id)) [
        | inl same ↦ rw same (
            let eq = (eq_string.agree_iff dm.upstream_id r.upstream_id).0 same in
            let once : seen C dms r.upstream_id ≡ false =
              subst (λ u. seen C dms u ≡ false) eq d.0 in
            ap
              (λ evs.
                touch_all C new_id now (flat C (discovered_events C existing) dms)
                  (touch_all C new_id now evs r))
              (discovered_events-own existing r dm own h eq)
            ∙ ap (touch_all C new_id now (flat C (discovered_events C existing) dms))
                (touch_all-row_events C new_id now dm r)
            ∙ touch_all-Avoids C new_id now _ (refreshed C new_id now dm r)
                (flat-Avoids existing r dms own once))
        | inr other ↦ rw other (
            ap (touch_all C new_id now (flat C (discovered_events C existing) dms))
              (touch_all-Avoids C new_id now _ r (discovered_events-Avoids existing r dm own other))
            ∙ flat-renewed existing r dms own h d.1)
      ]
