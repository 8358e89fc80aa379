-- ===== src/Admin/Sessions.antt =====
-- A session from its login on: when its token is resolved, and that a revoked one stays revoked.
use freellm_gateway.Base.{
  true≢false, ℕ, String, Bool, true, false, not, ◌&&◌, none, some, List, [], ◌∷◌, map, filter, find,
  ◌≡◌, refl, sym, ◌∙◌, arith, ◌==◌, eq_string, leb, ltb, is_some, All, All-append, All-filter,
  length, Bool-cases, inl, inr, if_elim, option_elim,
}
use freellm_gateway.Keys.Secret.{trim}
use freellm_gateway.Admin.{
  Crypto, Session, Tables, Meta, by_name, is_admin, by_id, by_token, is_locked, verify_password,
  login, login_as, resolve_session, logout, revoke_session, revoke_if, new_session, delete_user,
  change_password, create_user, reset_password, set_role, set_enabled, unlock, is_enabled,
}
use freellm_gateway.Admin.Roles.{
  Op, active_admins, logs_in, logs_out, revokes, changes, creates, resets, sets_role, sets_enabled,
  unlocks, deletes, step, run,
}

module _ (C : Crypto) (token : List ℕ) where
  abbrev pub is_its : Session → Bool
  is_its s = s.token_hash == C.sha256 token

  abbrev pub IsEnded : Session → Type 0
  IsEnded s = is_its s ≡ true → is_some s.revoked_at ≡ true

  -- Every session of the token is revoked.
  abbrev pub Ended : Tables → Type 0
  Ended t = All IsEnded t.sessions

  -- No login takes a token with the same hash.
  abbrev pub IsOther : Op C → Type 0
  IsOther (logs_in now id minted username password about) =
      (C.sha256 minted == C.sha256 token) ≡ false
  IsOther _ = Unit

  by_token-IsEnded :
      (ss : List Session) (s : Session)
      → All IsEnded ss
      → by_token C token ss ≡ some s
      → is_some s.revoked_at ≡ true
  by_token-IsEnded [] s ended e = absurd (cc)
  by_token-IsEnded (r ∷ rs) s ended e = elim (Bool-cases (is_its r)) [
    | inl its ↦ ground (arith, rw its at e, ended.0 its)
    | inr other ↦ by_token-IsEnded rs s ended.1 (rw other at e)
  ]

  Ended-resolve : (now : ℕ) (t : Tables) → Ended t → resolve_session C now token t ≡ none
  unfolding resolve_session
  Ended-resolve now t ended =
      option_elim (λ r. r ≡ none) (by_token C token t.sessions) (λ e. refl)
        λ s e. rw (by_token-IsEnded t.sessions s ended e) refl

  revoke_if-IsEnded :
      (p : Session → Bool) (now : ℕ) (ss : List Session)
      → All IsEnded ss
      → All IsEnded (map (revoke_if C p now) ss)
  revoke_if-IsEnded p now [] ended = tt
  revoke_if-IsEnded p now (s ∷ ss) ended =
      (if_elim IsEnded (p s) (λ b its. refl) (λ b. ended.0), revoke_if-IsEnded p now ss ended.1)

  revoke_if-own : (now : ℕ) (ss : List Session) → All IsEnded (map (revoke_if C is_its now) ss)
  revoke_if-own now [] = tt
  revoke_if-own now (s ∷ ss) = (
    if_elim IsEnded (is_its s) (λ b its. refl) (λ other its. absurd (true≢false (sym its ∙ other))),
    revoke_if-own now ss,
  )

  logout-Ended : (now : ℕ) (t : Tables) → Ended (logout C now token t)
  unfolding logout
  logout-Ended now t = revoke_if-own now t.sessions

  abbrev Ends : {A : Type 0} → A × Tables → Type 0
  Ends r = Ended r.1

  login-Ended :
      (now : ℕ) (id : String) (minted username password : List ℕ) (about : Meta) (t : Tables)
      → (C.sha256 minted == C.sha256 token) ≡ false
      → Ended t
      → Ends (login C now id minted username password about t)
  unfolding login login_as
  login-Ended now id minted username password about t other ended =
      option_elim Ends (by_name username t.users) (λ e. ended)
        λ u e.
          if_elim Ends (not u.enabled) (λ off. ended)
            λ on.
              if_elim Ends (is_locked now u) (λ held. ended)
                λ free.
                  if_elim Ends (not (verify_password C password u.password_hash)) (λ wrong. ended)
                    λ right.
                      All-append IsEnded t.sessions (new_session C now id minted about u ∷ []) ended
                        ((λ its. absurd (true≢false (sym its ∙ other))), tt)

  step-Ended : (op : Op C) (t : Tables) → IsOther op → Ended t → Ended (step C op t)
  unfolding step logout revoke_session change_password create_user reset_password set_role
      set_enabled unlock delete_user
  step-Ended (logs_in now id minted username password about) t other ended =
      login-Ended now id minted username password about t other ended
  step-Ended (logs_out now plain) t other ended = revoke_if-IsEnded _ now t.sessions ended
  step-Ended (revokes now id) t other ended =
      option_elim Ends (find (λ (s : Session). s.id == id) t.sessions) (λ e. ended)
        λ s e. revoke_if-IsEnded _ now t.sessions ended
  step-Ended (changes salt id old new) t other ended =
      option_elim Ends (by_id id t.users) (λ e. ended)
        λ u e. if_elim Ends (not (verify_password C old u.password_hash)) (λ b. ended) (λ b. ended)
  step-Ended (creates id salt username password role) t other ended =
      if_elim Ends (ltb (length (trim username)) 3) (λ b. ended)
        λ b.
          if_elim Ends (ltb 32 (length (trim username))) (λ b. ended)
            λ b.
              if_elim Ends (ltb (length password) 8) (λ b. ended)
                λ b.
                  if_elim Ends (is_some (by_name (trim username) t.users)) (λ b. ended) (λ b. ended)
  step-Ended (resets salt id new) t other ended =
      if_elim Ends (ltb (length new) 8) (λ b. ended)
        λ b. option_elim Ends (by_id id t.users) (λ e. ended) λ u e. ended
  step-Ended (sets_role id role) t other ended =
      option_elim Ends (by_id id t.users) (λ e. ended)
        λ u e.
          if_elim Ends (is_admin u.role && not (is_admin role) && leb (active_admins t.users) 1)
            (λ b. ended) (λ b. ended)
  step-Ended (sets_enabled id enabled) t other ended =
      option_elim Ends (by_id id t.users) (λ e. ended) λ u e. ended
  step-Ended (unlocks id) t other ended =
      option_elim Ends (by_id id t.users) (λ e. ended) λ u e. ended
  step-Ended (deletes id current) t other ended =
      if_elim Ends (id == current) (λ b. ended)
        λ b.
          if_elim Ends (leb (length (filter is_enabled t.users)) 1) (λ b. ended)
            λ b.
              option_elim Ends (by_id id t.users) (λ e. ended)
                λ u e. All-filter IsEnded (λ (s : Session). not (s.user_id == id)) t.sessions ended

  run-Ended : (ops : List (Op C)) (t : Tables) → All IsOther ops → Ended t → Ended (run C ops t)
  unfolding run
  run-Ended [] t other ended = ended
  run-Ended (op ∷ ops) t other ended =
      run-Ended ops (step C op t) other.1 (step-Ended op t other.0 ended)

  -- After a logout its token is resolved to no session again, whatever calls of the service follow,
  -- as long as no login takes a token with the same hash.
  pub resolve_session-logout :
      (now later : ℕ) (t : Tables) (ops : List (Op C))
      → All IsOther ops
      → resolve_session C later token (run C ops (logout C now token t)) ≡ none
  resolve_session-logout now later t ops other =
      Ended-resolve later (run C ops (logout C now token t))
        (run-Ended ops (logout C now token t) other (logout-Ended now t))
