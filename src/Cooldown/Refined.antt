-- ===== src/Cooldown/Refined.antt =====
-- The engine over a store that keeps the contract, against the machine of gates.
use mathlib.Core.Path.{fun_ext, ap₂}
use mathlib.Core.Bool.{and-eq-true_iff}
use freellm_gateway.Base.{
  ℕ, String, true, false, ◌&&◌, some, List, [], ◌∷◌, ◌==◌, eq_string, ltb, ◌≡◌, refl, ◌∙◌, sym, ap,
  inl, inr, Bool-cases, Option-cases, if_elim, subst, true≢false,
}
use freellm_gateway.Cooldown.{
  Scope, scope_eq, CooldownRecord, CooldownStore, RegisterFailureInput, EngineOptions, check,
  register_failure, register_success,
}
use freellm_gateway.Cooldown.Machine.{
  Gate, failures, ask, bench, Gates, set, Call, checks, fails, succeeds, run_gates, answer_of,
  gate_of, succeed, Leaves, run_engine, gates_of,
}
use freellm_gateway.Cooldown.Contract.{Elsewhere, Lawful}
use freellm_gateway.Cooldown.Gate.{
  counted, find-register_failure, register_failure-Inv, register_success-Inv, found-Carries,
}
use freellm_gateway.Cooldown.Tally.{frame, check-Elsewhere, register_success-Elsewhere}

module _ {S : Type 0} {Inv : S → Type 0} (store : CooldownStore S) (opts : EngineOptions)
    (lawful : Lawful store Inv) where
  apart :
      (scope : Scope) (key : String) (scope' : Scope) (key' : String)
      → (scope == scope' && key == key') ≡ false
      → Elsewhere scope key scope' key'
  apart scope key scope' key' e = elim (Bool-cases (scope == scope')) [
    | inr other ↦ inl (λ same. true≢false (sym ((scope_eq.agree_iff scope scope').1 same) ∙ other))
    | inl here ↦
        inr (λ same. true≢false (sym ((eq_string.agree_iff key key').1 same) ∙ (rw here at e)))
  ]

  -- A change of one key is a change of its gate alone.
  gates-set :
      (scope : Scope) (key : String) (g : Gate) (s s' : S)
      → gates_of store opts s' scope key ≡ g
      → ((scope' : Scope) (key' : String)
          → Elsewhere scope key scope' key'
          → store.find_active scope' key' s' ≡ store.find_active scope' key' s)
      → gates_of store opts s' ≡ set scope key g (gates_of store opts s)
  gates-set scope key g s s' own others = fun_ext (λ scope'. fun_ext (λ key'. at scope' key'))
    where
      at :
          (scope' : Scope) (key' : String)
          → gates_of store opts s' scope' key' ≡ set scope key g (gates_of store opts s) scope' key'
      at scope' key' = elim (Bool-cases (scope == scope' && key == key')) [
        | inl both ↦
            let (here, mine) = (and-eq-true_iff (scope == scope') (key == key')).0 both in
            rw
              (
                both,
                ← (scope_eq.agree_iff scope scope').0 here,
                ← (eq_string.agree_iff key key').0 mine,
              )
              own
        | inr other ↦ rw other (ap gate_of (others scope' key' (apart scope key scope' key' other)))
      ]

  -- A check answers as the gate does, and leaves the gate as the machine does.
  pub check-ask :
      (now : ℕ) (scope : Scope) (key : String) (s : S)
      → Inv s
      → (answer_of (check store opts now scope key s).1
          ≡ (ask now (gates_of store opts s scope key)).0)
        × (gates_of store opts (check store opts now scope key s).0 scope key
            ≡ (ask now (gates_of store opts s scope key)).1)
        × Inv (check store opts now scope key s).0
  unfolding check
  check-ask now scope key s h = elim (Option-cases (store.find_active scope key s)) [
    | inl free ↦ rw (free, check) (refl, rw free refl, h)
    | inr (x, e) ↦ elim (Bool-cases x.half_open) [
      | inl out ↦ elim (Bool-cases (ltb now x.expires_at)) [
        | inl active ↦ rw (e, check, active, out) (refl, rw (e, out) refl, h)
        | inr over ↦ rw (e, check, over, out) (refl, rw (e, out) refl, h)
      ]
      | inr closed ↦ elim (Bool-cases (ltb now x.expires_at)) [
        | inl active ↦
            rw (e, check, active, closed) (rw active refl, rw (e, closed, active) refl, h)
        | inr over ↦
            let carries = found-Carries store opts lawful scope key s x h e in
            let (same_scope, same_key) = lawful.found scope key s x h e in
            let (y, found, shows) =
              lawful.find-upsert now (record x.input { half_open = true }) s h carries in
            let found' : store.find_active scope key
                  (store.upsert now (record x.input { half_open = true }) s).0
                ≡ some y =
              rw (← same_scope, ← same_key) found in
            rw (e, check, over, closed)
              (
                rw over refl,
                rw (over, found', shows.half_open, shows.attempts) refl,
                lawful.upsert-Inv now _ s h carries,
              )
      ]
    ]
  ]

  failures-gate_of :
      (scope : Scope) (key : String) (s : S)
      → failures (gates_of store opts s scope key) ≡ counted store scope key s
  failures-gate_of scope key s = elim (Option-cases (store.find_active scope key s)) [
    | inl free ↦ rw (free, counted) refl
    | inr (x, e) ↦
        rw (e, counted)
          (if_elim (λ g. failures g ≡ x.attempts) x.half_open (λ out. refl) (λ closed. refl))
  ]

  -- A failure benches the gate as the machine does.
  register_failure-bench :
      (now random : ℕ) (input : RegisterFailureInput) (s : S)
      → Inv s
      → gates_of store opts (register_failure store opts now random input s).0 input.scope input.key
        ≡ bench opts now random input.hint_ms (gates_of store opts s input.scope input.key)
  register_failure-bench now random input s h =
      let (x, found, attempts, expires, closed) =
        find-register_failure store opts lawful now random input s h in
      rw (found, closed, attempts, expires, failures-gate_of input.scope input.key s) refl

  module _ (left : Gate → Gate) (leaves : Leaves store opts Inv left) where
    register_success-succeed :
        (now : ℕ) (scope : Scope) (key : String) (s : S)
        → Inv s
        → gates_of store opts (register_success store opts now scope key s) scope key
          ≡ succeed left (gates_of store opts s scope key)
    unfolding register_success
    register_success-succeed now scope key s h =
        elim (Option-cases (store.find_active scope key s)) [
          | inl e ↦ rw (e, register_success) (rw e refl)
          | inr (x, e) ↦ rw (e, register_success) (leaves now scope key s x h e ∙ succeeded x)
        ]
      where
        succeeded : (x : CooldownRecord) → left (gate_of (some x)) ≡ succeed left (gate_of (some x))
        succeeded x = if_elim (λ g. left g ≡ succeed left g) x.half_open (λ b. refl) (λ b. refl)

    -- From a store, calls have the answers, and leave a store for the gates, that they have from gates.
    abbrev Agrees : List Call → S → Gates → Type 0
    Agrees calls s gates =
        ((run_engine store opts calls s).0 ≡ (run_gates opts left calls gates).0)
        × (gates_of store opts (run_engine store opts calls s).1
            ≡ (run_gates opts left calls gates).1)

    -- The engine over any store that keeps the contract implements the machine for what its resets
    -- leave: from the gates that the store stands for, any calls on any keys have the answers that the
    -- machine gives, whether a caller is let through and whether as a probe, and leave a store that
    -- stands for the machine's last gates.
    pub run_engine-run_gates :
        (calls : List Call) (s : S)
        → Inv s
        → ((run_engine store opts calls s).0
            ≡ (run_gates opts left calls (gates_of store opts s)).0)
          × (gates_of store opts (run_engine store opts calls s).1
              ≡ (run_gates opts left calls (gates_of store opts s)).1)
    unfolding run_engine run_gates
    run_engine-run_gates [] s h = (refl, refl)
    run_engine-run_gates (checks now scope key ∷ calls) s h =
        let (answered, gate, kept) = check-ask now scope key s h in
        let s' = (check store opts now scope key s).0 in
        let gates = gates-set scope key _ s s' gate (λ scope' key' far.
          check-Elsewhere store opts lawful now scope key scope' key' s h far) in
        let (answers, last) = subst (Agrees calls s') gates (run_engine-run_gates calls s' kept) in
        (ap₂ (λ a rest. a ∷ rest) answered answers, last)
    run_engine-run_gates (fails now random input ∷ calls) s h =
        let s' = (register_failure store opts now random input s).0 in
        let kept = register_failure-Inv store opts lawful now random input s h in
        let gates =
          gates-set input.scope input.key _ s s' (register_failure-bench now random input s h)
            (λ scope' key' far. (frame store opts lawful now random input scope' key' s h far).1) in
        subst (Agrees calls s') gates (run_engine-run_gates calls s' kept)
    run_engine-run_gates (succeeds now scope key ∷ calls) s h =
        let s' = register_success store opts now scope key s in
        let kept = register_success-Inv store opts lawful now scope key s h in
        let gates =
          gates-set scope key _ s s' (register_success-succeed now scope key s h)
            (λ scope' key' far.
              register_success-Elsewhere store opts lawful now scope key scope' key' s h far) in
        subst (Agrees calls s') gates (run_engine-run_gates calls s' kept)
