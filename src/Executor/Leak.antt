-- ===== src/Executor/Leak.antt =====
-- What a probe that the model's gate granted comes to when the provider's gate then refuses.
use freellm_gateway.Base.{ℕ, ◌≤◌, ◌<◌, Bool, false, some, List, ◌≡◌, refl, inl, ap, ◌∙◌, map, arith}
use freellm_gateway.Number.{Number}
use freellm_gateway.Cooldown.{model, provider, CooldownRecord, check}
use freellm_gateway.Cooldown.Contract.{Lawful}
use freellm_gateway.Cooldown.Gate.{
  run_checks, run_checks_half_open, check_active, check_expired, check-half_open,
}
use freellm_gateway.Cooldown.Tally.{check-Elsewhere}
use freellm_gateway.Router.Decide.{Candidate}
use freellm_gateway.Executor.{
  ChatCompletionRequest, Provider, Env, ExecutorOptions, State, model_gate, provider_gate,
}
use freellm_gateway.Executor.Attempt.{continues, attempt}

module _ (N : Number) {S Body Chunk : Type 0} {Inv : S → Type 0} (env : Env N Body Chunk)
    (opts : ExecutorOptions N S) (lawful : Lawful opts.cooldown_store Inv) where
  -- Over any store that keeps the contract: if the backoff of a candidate's model is over and its
  -- provider is still benched, the attempt goes on to the next candidate without a call, but
  -- leaves the model half-open: from then on every check of the model is refused, at any time, for
  -- as long as no outcome is registered for it.
  pub attempt_leak :
      (i : ℕ) (c : Candidate N) (asked : ChatCompletionRequest) (streaming : Bool) (st : State N S)
      (p : Provider Body Chunk) (x y : CooldownRecord) (ts : List ℕ)
      → Inv st.cooldowns
      → env.registry c.model.provider_slug ≡ some p
      → opts.cooldown_store.find_active model c.model.model_id st.cooldowns ≡ some x
      → x.expires_at ≤ env.clock i model_gate
      → x.half_open ≡ false
      → opts.cooldown_store.find_active provider c.model.provider_slug st.cooldowns ≡ some y
      → env.clock i provider_gate < y.expires_at
      → ((attempt N env opts i c asked streaming st).2 ≡ continues)
        × ((attempt N env opts i c asked streaming st).1.events ≡ st.events)
        × ((run_checks opts.cooldown_store opts.cooldown model c.model.model_id ts
              (attempt N env opts i c asked streaming st).1.cooldowns).1
            ≡ map (λ _. false) ts)
  unfolding attempt
  attempt_leak i c asked streaming st p x y ts inv known found over closed benched early =
      let store = opts.cooldown_store in
      let id = c.model.model_id in
      let slug = c.model.provider_slug in
      let now = env.clock i model_gate in
      let s₁ = (check store opts.cooldown now model id st.cooldowns).0 in
      let (granted, _, _) =
        check_expired store opts.cooldown model id now st.cooldowns x found over closed in
      let (z, probing, out) =
        check-half_open store opts.cooldown lawful now model id st.cooldowns x inv found over
          closed in
      let still : store.find_active provider slug s₁ ≡ some y =
        check-Elsewhere store opts.cooldown lawful now model id provider slug st.cooldowns inv
          (inl (ground arith))
        ∙ benched in
      let (refused, same) =
        check_active store opts.cooldown provider slug (env.clock i provider_gate) s₁ y still
          early in
      rw (known, attempt, granted, refused, same)
        (
          refl,
          refl,
          ap (λ (r : S × List Bool). r.1)
              (run_checks_half_open store opts.cooldown model id ts s₁ z probing out),
        )
