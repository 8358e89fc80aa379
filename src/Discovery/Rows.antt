-- ===== src/Discovery/Rows.antt =====
-- How a discovery cycle finds the row of a listed model.
use freellm_gateway.Base.{
  String, true, false, none, some, List, [], ◌∷◌, ◌≡◌, refl, ◌∙◌, ap, subst, ◌⊎◌, inl, inr, All,
  IsIn, ◌==◌, eq_nat, eq_string, Bool-cases, Option-cases,
}
use freellm_gateway.Status.{status_eq}
use freellm_gateway.Discovery.{Codec, DiscoveredModel, ModelRow, seen, by_upstream_id}

module _ (C : Codec) where
  -- No other row has the row's id or its upstream id.
  abbrev pub IsOwn : List (ModelRow C) → ModelRow C → Type 0
  IsOwn existing r =
      All
        (λ (q : ModelRow C).
          ((r.id == q.id) ≡ true → q ≡ r) × ((q.upstream_id == r.upstream_id) ≡ true → q ≡ r))
        existing

  -- A list names no model twice.
  abbrev pub IsDistinct : List (DiscoveredModel C) → Type 0
  IsDistinct [] = Unit
  IsDistinct (d ∷ ds) = (seen C ds d.upstream_id ≡ false) × IsDistinct ds

  by_upstream_id-either :
      (existing : List (ModelRow C)) (r : ModelRow C)
      → IsOwn existing r
      → (by_upstream_id C r.upstream_id existing ≡ none)
        ⊎ (by_upstream_id C r.upstream_id existing ≡ some r)
  unfolding by_upstream_id
  by_upstream_id-either [] r own = inl refl
  by_upstream_id-either (q ∷ qs) r own = elim (by_upstream_id-either qs r own.1) [
    | inr e ↦ inr (rw e refl)
    | inl e ↦ elim (Bool-cases (q.upstream_id == r.upstream_id)) [
      | inl same ↦ inr (rw (e, same) (ap some (own.0.1 same)))
      | inr other ↦ inl (rw (e, other) refl)
    ]
  ]

  pub by_upstream_id-own :
      (existing : List (ModelRow C)) (r : ModelRow C)
      → IsOwn existing r
      → IsIn r existing
      → by_upstream_id C r.upstream_id existing ≡ some r
  unfolding by_upstream_id
  by_upstream_id-own [] r own h = absurd h
  by_upstream_id-own (q ∷ qs) r own (inl same) = elim (by_upstream_id-either qs r own.1) [
    | inr e ↦ rw e refl
    | inl e ↦
        rw
          (
            e,
            (eq_string.agree_iff q.upstream_id r.upstream_id).1
                (ap (λ (x : ModelRow C). x.upstream_id) same),
          )
          (ap some same)
  ]
  by_upstream_id-own (q ∷ qs) r own (inr more) = rw (by_upstream_id-own qs r own.1 more) refl

  pub by_upstream_id-All :
      (P : ModelRow C → Type 0) (u : String) (existing : List (ModelRow C)) (q : ModelRow C)
      → All P existing
      → by_upstream_id C u existing ≡ some q
      → P q × ((q.upstream_id == u) ≡ true)
  unfolding by_upstream_id
  by_upstream_id-All P u [] q h e = absurd (cc)
  by_upstream_id-All P u (r ∷ rs) q h e = elim (Option-cases (by_upstream_id C u rs)) [
    | inr (x, found) ↦
        let e' : some x ≡ some q = rw found at e in by_upstream_id-All P u rs q h.1 (found ∙ e')
    | inl missing ↦ elim (Bool-cases (r.upstream_id == u)) [
      | inl same ↦
          let e' : some r ≡ some q = rw (missing, same) at e in
          let eq : r ≡ q = cc in
          subst (λ (x : ModelRow C). P x × ((x.upstream_id == u) ≡ true)) eq (h.0, same)
      | inr other ↦ let e' : none ≡ some q = rw (missing, other) at e in absurd (cc)
    ]
  ]
