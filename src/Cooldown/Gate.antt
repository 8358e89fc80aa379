-- ===== src/Cooldown/Gate.antt =====
-- What the gate does after a failure, a probe and a success, over any store that keeps the contract.
use freellm_gateway.Base.{
  ℕ, ◌+◌, ◌≤◌, ◌<◌, String, Bool, true, false, none, some, List, [], ◌∷◌, ◌≡◌, refl, arith, inl,
  inr, Option-cases, map,
}
use freellm_gateway.Cooldown.{
  Scope, CooldownRecord, CooldownStore, RegisterFailureInput, EngineOptions, check, failure_record,
  register_failure, register_success, backoff,
}
use freellm_gateway.Cooldown.Contract.{Carries, Lawful, Forgets}

-- The failures that the store counts for a key.
abbrev pub counted : {S : Type 0} → CooldownStore S → Scope → String → S → ℕ
counted store scope key s = elim (store.find_active scope key s) [ none ↦ 0 | some x ↦ x.attempts ]

module _ {S : Type 0} (store : CooldownStore S) (opts : EngineOptions) (scope : Scope)
    (key : String) where
  -- A row of checks of one key at the given times, with no outcome registered between them.
  unfoldable pub run_checks : List ℕ → S → S × List Bool
  run_checks [] s = (s, [])
  run_checks (t ∷ ts) s =
      let (s', d) = check store opts t scope key s in
      let (s'', ds) = run_checks ts s' in (s'', d.allowed ∷ ds)

  pub check_active :
      (now : ℕ) (s : S) (x : CooldownRecord)
      → store.find_active scope key s ≡ some x
      → now < x.expires_at
      → ((check store opts now scope key s).1.allowed ≡ false)
        × ((check store opts now scope key s).0 ≡ s)
  unfolding check
  check_active now s x e h = rw (e, check) (ground arith)

  -- While a half-open probe is out, every check is refused and changes nothing, at any time.
  pub check_half_open :
      (now : ℕ) (s : S) (x : CooldownRecord)
      → store.find_active scope key s ≡ some x
      → x.half_open ≡ true
      → ((check store opts now scope key s).1.allowed ≡ false)
        × ((check store opts now scope key s).0 ≡ s)
  unfolding check
  check_half_open now s x e h = rw (e, check) (ground arith)

  pub check_free :
      (now : ℕ) (s : S)
      → store.find_active scope key s ≡ none
      → ((check store opts now scope key s).1.allowed ≡ true)
        × ((check store opts now scope key s).1.half_open_probe ≡ false)
        × ((check store opts now scope key s).0 ≡ s)
  unfolding check
  check_free now s e = rw (e, check) (refl, refl, refl)

  pub check_expired :
      (now : ℕ) (s : S) (x : CooldownRecord)
      → store.find_active scope key s ≡ some x
      → x.expires_at ≤ now
      → x.half_open ≡ false
      → ((check store opts now scope key s).1.allowed ≡ true)
        × ((check store opts now scope key s).1.half_open_probe ≡ true)
        × ((check store opts now scope key s).0
            ≡ (store.upsert now (record x.input { half_open = true }) s).0)
  unfolding check
  check_expired now s x e h k = rw (e, check) (ground arith)

  -- Over any store, a key whose record is marked half-open stays closed for as long as nothing
  -- registers an outcome: every check is refused, at any time, and changes nothing.
  pub run_checks_half_open :
      (ts : List ℕ) (s : S) (x : CooldownRecord)
      → store.find_active scope key s ≡ some x
      → x.half_open ≡ true
      → run_checks ts s ≡ (s, map (λ _. false) ts)
  unfolding run_checks
  run_checks_half_open [] s x e h = refl
  run_checks_half_open (t ∷ ts) s x e h =
      let (refused, same) = check_half_open t s x e h in
      rw (same, refused, run_checks_half_open ts s x e h)

module _ {S : Type 0} {Inv : S → Type 0} (store : CooldownStore S) (opts : EngineOptions)
    (lawful : Lawful store Inv) where
  pub find-register_failure :
      (now random : ℕ) (input : RegisterFailureInput) (s : S)
      → Inv s
      → (x : CooldownRecord) × (store.find_active input.scope input.key
            (register_failure store opts now random input s).0
          ≡ some x)
        × (x.attempts ≡ counted store input.scope input.key s + 1)
        × (x.expires_at
            ≡ now + backoff opts (counted store input.scope input.key s + 1) input.hint_ms random)
        × (x.half_open ≡ false)
  unfolding register_failure failure_record
  find-register_failure now random input s h =
      let (x, found, shows) =
        lawful.find-upsert now
          (failure_record store opts now random input (store.find_active input.scope input.key s)) s
          h refl in
      (x, found, shows.attempts, shows.expires_at, shows.half_open)

  pub register_failure-Inv :
      (now random : ℕ) (input : RegisterFailureInput) (s : S)
      → Inv s
      → Inv (register_failure store opts now random input s).0
  unfolding register_failure failure_record
  register_failure-Inv now random input s h = lawful.upsert-Inv now _ s h refl

  pub found-Carries :
      (scope : Scope) (key : String) (s : S) (x : CooldownRecord)
      → Inv s
      → store.find_active scope key s ≡ some x
      → Carries store s (record x.input { half_open = true })
  found-Carries scope key s x h e =
      let (same_scope, same_key) = lawful.found scope key s x h e in
      rw (same_scope, same_key, e) refl

  -- A check at the end of a backoff leaves the key half-open.
  pub check-half_open :
      (now : ℕ) (scope : Scope) (key : String) (s : S) (x : CooldownRecord)
      → Inv s
      → store.find_active scope key s ≡ some x
      → x.expires_at ≤ now
      → x.half_open ≡ false
      → (y : CooldownRecord) × (store.find_active scope key (check store opts now scope key s).0
          ≡ some y)
        × (y.half_open ≡ true)
  check-half_open now scope key s x h e after closed =
      let (same_scope, same_key) = lawful.found scope key s x h e in
      let (_, _, next) = check_expired store opts scope key now s x e after closed in
      let (y, found, shows) =
        lawful.find-upsert now (record x.input { half_open = true }) s h
          (found-Carries scope key s x h e) in
      (y, rw (next, ← same_scope, ← same_key) found, shows.half_open)

  -- Over any store that keeps the contract, a failure closes the key until its backoff is over: a
  -- check before that is refused and changes nothing.
  check-register_failure :
      (now random later : ℕ) (input : RegisterFailureInput) (s : S)
      → Inv s
      → later < now + backoff opts (counted store input.scope input.key s + 1) input.hint_ms random
      → let s' = (register_failure store opts now random input s).0 in
        ((check store opts later input.scope input.key s').1.allowed ≡ false)
        × ((check store opts later input.scope input.key s').0 ≡ s')
  check-register_failure now random later input s h before =
      let (x, found, _, expires, _) = find-register_failure now random input s h in
      check_active store opts input.scope input.key later _ x found (rw expires before)

  -- Over any store that keeps the contract: after a failure, of a row of checks of which the first
  -- is at or after the end of the backoff, the first is let through and all later ones are
  -- refused, for as long as no outcome is registered.
  run_checks-register_failure :
      (now random t : ℕ) (ts : List ℕ) (input : RegisterFailureInput) (s : S)
      → Inv s
      → now + backoff opts (counted store input.scope input.key s + 1) input.hint_ms random ≤ t
      → (run_checks store opts input.scope input.key
          (t ∷ ts)
          (register_failure store opts now random input s).0).1
        ≡ true ∷ map (λ _. false) ts
  unfolding run_checks
  run_checks-register_failure now random t ts input s h after =
      let (x, found, _, expires, closed) = find-register_failure now random input s h in
      let s' = (register_failure store opts now random input s).0 in
      let over : x.expires_at ≤ t = rw expires after in
      let (y, probing, out) =
        check-half_open t input.scope input.key s' x (register_failure-Inv now random input s h)
          found over closed in
      let (allowed, _, _) =
        check_expired store opts input.scope input.key t s' x found over closed in
      rw (allowed, run_checks_half_open store opts input.scope input.key ts _ y probing out)

  pub register_success-Inv :
      (now : ℕ) (scope : Scope) (key : String) (s : S)
      → Inv s
      → Inv (register_success store opts now scope key s)
  unfolding register_success
  register_success-Inv now scope key s h = elim (Option-cases (store.find_active scope key s)) [
    | inl e ↦ rw (e, register_success) h
    | inr (x, e) ↦ rw (e, register_success) (lawful.reset-Inv now scope key s x h e)
  ]

  pub find-register_success :
      Forgets store Inv
      → (now : ℕ) (scope : Scope) (key : String) (s : S) → Inv s
      → store.find_active scope key (register_success store opts now scope key s) ≡ none
  unfolding register_success
  find-register_success forgets now scope key s h =
      elim (Option-cases (store.find_active scope key s)) [
        | inl e ↦ rw (e, register_success) e
        | inr (x, e) ↦ rw (e, register_success) (forgets now scope key s x h e)
      ]

  -- Over any store that keeps the contract, and forgets, a success opens the key: the
  -- next check is let through, not as a probe.
  check-register_success :
      Forgets store Inv
      → (now later : ℕ) (scope : Scope) (key : String) (s : S) → Inv s
      → ((check store opts later scope key (register_success store opts now scope key s)).1.allowed
          ≡ true)
        × ((check store opts later scope key
              (register_success store opts now scope key s)).1.half_open_probe
            ≡ false)
  check-register_success forgets now later scope key s h =
      let gone = find-register_success forgets now scope key s h in
      let (allowed, probe, _) = check_free store opts scope key later _ gone in (allowed, probe)
