-- ===== src/Free/Grounds.antt =====
-- What a classification rests on.
use freellm_gateway.Base.{
  ◌≤◌, String, Bool, true, false, not, ◌&&◌, ◌||◌, Option, none, some, [], ◌∷◌, ◌≡◌, ◌⊎◌, inl, inr,
  ◌↔◌, refl, arith, if◌then◌else◌, is_some, or_else, Bool-cases,
}
use freellm_gateway.Number.{Number}
use freellm_gateway.Discovery.{FreeClassification, free, paid, suspected, unknown}
use freellm_gateway.Free.{
  FreeDetectorInput, Pricing, Price, is_zero, no_pricing, has_word, id_looks_free,
  looks_like_free_suffix, classify_signals, classify_free, any_published, any_published_non_zero,
  all_zero,
}

free_bools :
    (ps pz cs cz rs rz suffix : Bool)
    → (pz ≡ true → ps ≡ true)
    → (cz ≡ true → cs ≡ true)
    → (((ps || cs || rs) && (pz && cz && (not rs || rz)))
          || ((ps || cs || rs) && (pz || cz) && suffix)
        ≡ true)
      ↔ (((pz ≡ true) × (cz ≡ true) × ((rs ≡ true) × (rz ≡ false) → ⊥))
          ⊎ (((pz ≡ true) ⊎ (cz ≡ true)) × (suffix ≡ true)))
free_bools ps pz cs cz rs rz suffix h k =
    (λ e. ground (arith, e, h, k), λ e. ground (arith, e, h, k))

paid_bools :
    (ps pz cs cz rs rz : Bool)
    → ((ps || cs || rs) && ((ps && not pz) || (cs && not cz) || (rs && not rz)) ≡ true) ↔ (
        ((ps ≡ true) × (pz ≡ false))
        ⊎ (((cs ≡ true) × (cz ≡ false)) ⊎ ((rs ≡ true) × (rz ≡ false))))
paid_bools ps pz cs cz rs rz = (λ e. ground (arith, e), λ e. ground (arith, e))

module _ (N : Number) (normalise : String → String) (number_of : String → N.F) where
  open N use {F}

  abbrev IsZero : Option (Price F) → Type 0
  IsZero o = is_zero N normalise number_of o ≡ true

  -- A price that is published and not zero.
  abbrev pub Costs : Option (Price F) → Type 0
  Costs o = (is_some o ≡ true) × (is_zero N normalise number_of o ≡ false)

  abbrev pub pricing_of : FreeDetectorInput F → Pricing F
  pricing_of input = or_else input.pricing (no_pricing N normalise number_of)

  -- All prices that count are zero, or one is and the id ends in :free.
  abbrev pub LooksFree : FreeDetectorInput F → Type 0
  LooksFree input =
      let p = pricing_of input in
      (IsZero p.prompt × IsZero p.completion × (Costs p.request → ⊥))
      ⊎ ((IsZero p.prompt ⊎ IsZero p.completion)
          × (looks_like_free_suffix input.upstream_id ≡ true))

  abbrev pub LooksPaid : FreeDetectorInput F → Type 0
  LooksPaid input =
      let p = pricing_of input in Costs p.prompt ⊎ (Costs p.completion ⊎ Costs p.request)

  abbrev pub hints : FreeDetectorInput F → Bool
  hints input =
      looks_like_free_suffix input.upstream_id
      || id_looks_free input.upstream_id
      || has_word ("free" ∷ []) (or_else input.top_provider "")

  abbrev pub Grounds : FreeDetectorInput F → FreeClassification → Type 0
  Grounds input free = LooksFree input
  Grounds input paid = (LooksFree input → ⊥) × LooksPaid input
  Grounds input suspected = (LooksFree input → ⊥) × (LooksPaid input → ⊥) × (hints input ≡ true)
  Grounds input unknown = (LooksFree input → ⊥) × (LooksPaid input → ⊥) × (hints input ≡ false)

  IsZero-is_some : (o : Option (Price F)) → IsZero o → is_some o ≡ true
  unfolding is_zero
  IsZero-is_some none h = h
  IsZero-is_some (some x) h = refl

  free_test : FreeDetectorInput F → Bool
  free_test input =
      let p = pricing_of input in
      (any_published N normalise number_of p && all_zero N normalise number_of p)
      || (any_published N normalise number_of p
          && (is_zero N normalise number_of p.prompt || is_zero N normalise number_of p.completion)
          && looks_like_free_suffix input.upstream_id)

  free_test_iff : (input : FreeDetectorInput F) → (free_test input ≡ true) ↔ LooksFree input
  unfolding free_test
  free_test_iff input =
      let p = pricing_of input in
      free_bools (is_some p.prompt) (is_zero N normalise number_of p.prompt) (is_some p.completion)
        (is_zero N normalise number_of p.completion) (is_some p.request)
        (is_zero N normalise number_of p.request) (looks_like_free_suffix input.upstream_id)
        (IsZero-is_some p.prompt) (IsZero-is_some p.completion)

  paid_test : FreeDetectorInput F → Bool
  paid_test input =
      let p = pricing_of input in
      any_published N normalise number_of p && any_published_non_zero N normalise number_of p

  paid_test_iff : (input : FreeDetectorInput F) → (paid_test input ≡ true) ↔ LooksPaid input
  unfolding paid_test
  paid_test_iff input =
      let p = pricing_of input in
      paid_bools (is_some p.prompt) (is_zero N normalise number_of p.prompt) (is_some p.completion)
        (is_zero N normalise number_of p.completion) (is_some p.request)
        (is_zero N normalise number_of p.request)

  -- What the classification is, by the two tests.
  by_tests :
      (input : FreeDetectorInput F)
      → (classify_signals N normalise number_of input).classification ≡ (
          if free_test input
          then free
          else if paid_test input
          then paid
          else if hints input
          then suspected
          else unknown)
  unfolding classify_signals free_test paid_test
  by_tests input = ground arith

  -- Where no one has overridden it, a model is called free exactly where its prices look free, paid
  -- where they do not and one that is published is not zero, suspected where neither holds and a
  -- name hints at it, and unknown otherwise.
  pub classify_free-Grounds :
      (input : FreeDetectorInput F)
      → input.override ≡ none
      → Grounds input (classify_free N normalise number_of input).classification
  unfolding classify_free
  classify_free-Grounds input e =
      rw (e, by_tests input)
        (elim (Bool-cases (free_test input)) [
          | inl f ↦ rw f ((free_test_iff input).0 f)
          | inr f ↦
              let not_free : LooksFree input → ⊥ =
                λ h. ground (arith, (free_test_iff input).1 h, f) in
              rw f (elim (Bool-cases (paid_test input)) [
                | inl g ↦ rw g (not_free, (paid_test_iff input).0 g)
                | inr g ↦
                    let not_paid : LooksPaid input → ⊥ =
                      λ h. ground (arith, (paid_test_iff input).1 h, g) in
                    rw g (elim (Bool-cases (hints input)) [
                      | inl k ↦ rw k (not_free, not_paid, k)
                      | inr k ↦ rw k (not_free, not_paid, k)
                    ])
              ])
        ])

  -- A confidence of at least 0.8 is given to free and to paid, and to nothing else.
  pub classify_free-confidence :
      (input : FreeDetectorInput F)
      → let r = classify_free N normalise number_of input in
        (80 ≤ r.confidence) ↔ ((r.classification ≡ free) ⊎ (r.classification ≡ paid))
  unfolding classify_free classify_signals
  classify_free-confidence input = (λ h. ground (arith, h), λ h. ground (arith, h))
