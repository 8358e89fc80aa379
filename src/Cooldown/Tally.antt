-- ===== src/Cooldown/Tally.antt =====
-- The failure count that drives the exponential backoff, and what other keys see of it.
use freellm_gateway.Base.{
  ℕ, ◌+◌, String, Option, List, [], ◌∷◌, ◌≡◌, refl, ap, ◌∙◌, inl, inr, Option-cases, true,
  Bool-cases, ltb,
}
use freellm_gateway.Cooldown.{
  Scope, CooldownStore, RegisterFailureInput, EngineOptions, check, failure_record,
  register_failure, register_success,
}
use freellm_gateway.Cooldown.Contract.{Elsewhere, Lawful, Forgets}
use freellm_gateway.Cooldown.Gate.{
  counted, find-register_failure, register_failure-Inv, find-register_success, register_success-Inv,
  found-Carries,
}

-- What the executor registers of one key, with the time and the draw of each call.
pub data Outcome : Type 0 where
  failed : ℕ → ℕ → String → Option ℕ → Outcome
  succeeded : ℕ → Outcome

-- The failures since the last success, on top of `n`.
abbrev pub since_success : List Outcome → ℕ → ℕ
since_success [] n = n
since_success (failed now random reason hint ∷ os) n = since_success os (n + 1)
since_success (succeeded now ∷ os) n = since_success os 0

module _ {S : Type 0} (store : CooldownStore S) (opts : EngineOptions) (scope : Scope)
    (key : String) where
  unfoldable pub register : Outcome → S → S
  register (failed now random reason hint) s =
      (register_failure store opts now random
        (record { scope = scope; key = key; reason = reason; hint_ms = hint }) s).0
  register (succeeded now) s = register_success store opts now scope key s

  unfoldable pub register_all : List Outcome → S → S
  register_all [] s = s
  register_all (o ∷ os) s = register_all os (register o s)

module _ {S : Type 0} {Inv : S → Type 0} (store : CooldownStore S) (opts : EngineOptions)
    (lawful : Lawful store Inv) where
  module _ (forgets : Forgets store Inv) (scope : Scope) (key : String) where
    register_success-counted :
        (now : ℕ) (s : S)
        → Inv s
        → (counted store scope key (register_success store opts now scope key s) ≡ 0)
          × Inv (register_success store opts now scope key s)
    register_success-counted now s h =
        let gone = find-register_success store opts lawful forgets now scope key s h in
        (rw (gone, counted) refl, register_success-Inv store opts lawful now scope key s h)

    register_failure-counted :
        (now random : ℕ) (reason : String) (hint : Option ℕ) (s : S)
        → Inv s
        → counted store scope key (register store opts scope key (failed now random reason hint) s)
          ≡ counted store scope key s + 1
    unfolding register
    register_failure-counted now random reason hint s h =
        let (x, found, attempts, _, _) =
          find-register_failure store opts lawful now random
            (record { scope = scope; key = key; reason = reason; hint_ms = hint }) s h in
        rw (found, counted) attempts

    -- Over any store that keeps the contract and forgets, the stored count is the number of failures since the
    -- key's last success (on top of the count before, if there was none), so a success restarts
    -- the exponential backoff.
    counted-register_all :
        (os : List Outcome) (s : S)
        → Inv s
        → counted store scope key (register_all store opts scope key os s)
          ≡ since_success os (counted store scope key s)
    unfolding register_all register
    counted-register_all [] s h = refl
    counted-register_all (failed now random reason hint ∷ os) s h =
        counted-register_all os _ (register_failure-Inv store opts lawful now random _ s h)
        ∙ ap (since_success os) (register_failure-counted now random reason hint s h)
    counted-register_all (succeeded now ∷ os) s h =
        let (zeroed, kept) = register_success-counted now s h in
        counted-register_all os _ kept ∙ ap (since_success os) zeroed

  pub check-Elsewhere :
      (now : ℕ) (scope : Scope) (key : String) (scope' : Scope) (key' : String) (s : S)
      → Inv s
      → Elsewhere scope key scope' key'
      → store.find_active scope' key' (check store opts now scope key s).0
        ≡ store.find_active scope' key' s
  unfolding check
  check-Elsewhere now scope key scope' key' s h far =
      elim (Option-cases (store.find_active scope key s)) [
        | inl e ↦ rw (e, check) refl
        | inr (x, e) ↦ elim (Bool-cases (ltb now x.expires_at)) [
          | inl active ↦ rw (e, check, active) refl
          | inr over ↦ elim (Bool-cases x.half_open) [
            | inl out ↦ rw (e, check, over, out) refl
            | inr closed ↦
                let (s', k') = lawful.found scope key s x h e in
                rw (e, check, over, closed)
                  (lawful.find-upsert_ne now (record x.input { half_open = true }) s scope' key' h
                    (found-Carries store opts lawful scope key s x h e) (rw (s', k') far))
          ]
        ]
      ]

  pub register_success-Elsewhere :
      (now : ℕ) (scope : Scope) (key : String) (scope' : Scope) (key' : String) (s : S)
      → Inv s
      → Elsewhere scope key scope' key'
      → store.find_active scope' key' (register_success store opts now scope key s)
        ≡ store.find_active scope' key' s
  unfolding register_success
  register_success-Elsewhere now scope key scope' key' s h far =
      elim (Option-cases (store.find_active scope key s)) [
        | inl e ↦ rw (e, register_success) refl
        | inr (x, e) ↦
            rw (e, register_success) (lawful.find-reset_ne now scope key s x scope' key' h e far)
      ]

  -- Over any store that keeps the contract, a check, a failure or a success of one key changes
  -- nothing that is found for any other scope or key.
  pub frame :
      (now random : ℕ) (input : RegisterFailureInput) (scope' : Scope) (key' : String) (s : S)
      → Inv s
      → Elsewhere input.scope input.key scope' key'
      → (store.find_active scope' key' (check store opts now input.scope input.key s).0
          ≡ store.find_active scope' key' s)
        × (store.find_active scope' key' (register_failure store opts now random input s).0
            ≡ store.find_active scope' key' s)
        × (store.find_active scope' key' (register_success store opts now input.scope input.key s)
            ≡ store.find_active scope' key' s)
  unfolding register_failure failure_record
  frame now random input scope' key' s h far = (
    check-Elsewhere now input.scope input.key scope' key' s h far,
    lawful.find-upsert_ne now _ s scope' key' h refl far,
    register_success-Elsewhere now input.scope input.key scope' key' s h far,
  )
