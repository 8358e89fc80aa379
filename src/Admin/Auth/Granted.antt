-- ===== src/Admin/Auth/Granted.antt =====
-- Who gets past the hook, and that nobody does with the token of a session that was logged out.
use freellm_gateway.Base.{
  true≢false, ℕ, ◌<◌, Bool, true, false, not, ◌&&◌, Option, none, some, List, [], ◌≡◌, refl, sym,
  ◌∙◌, subst, arith, ◌==◌, eq_string, eq_units, leb, is_some, All, if_elim, if_same, option_elim,
}
use freellm_gateway.Classify.Regex.{units}
use freellm_gateway.Errors.{unauthorized}
use freellm_gateway.Admin.{
  Crypto, AdminUser, Session, Tables, is_admin, by_id, by_token, resolve_session, logout,
}
use freellm_gateway.Admin.Roles.{Op, run}
use freellm_gateway.Admin.Sessions.{IsOther, resolve_session-logout}
use freellm_gateway.Admin.Auth.{
  AdminSession, Verdict, granted, thrown, is_admin_only, is_public, starts_with,
  read_session_cookie, session_of, judge, on_request, on_cookie,
}

role_fits : (is_one only : Bool) → (not is_one && only) ≡ false → only ≡ true → is_one ≡ true
role_fits true only e h = refl
role_fits false only e h = absurd (true≢false (sym h ∙ e))

module _ (C : Crypto) (decode : List ℕ → Option (List ℕ)) where
  -- A session that a token is good for at a time, and its user.
  pub record IsLive (now : ℕ) (token : List ℕ) (t : Tables) (s : Session) (u : AdminUser)
      : Type 0 where
    pub its : by_token C token t.sessions ≡ some s
    pub kept : s.revoked_at ≡ none
    pub early : now < s.expires_at
    pub owner : by_id s.user_id t.users ≡ some u

  abbrev Found : ℕ → List ℕ → Tables → Option (Session × AdminUser) → Type 0
  Found now token t none = Unit
  Found now token t (some (s, u)) = IsLive now token t s u

  resolve_session-Found :
      (now : ℕ) (token : List ℕ) (t : Tables) → Found now token t (resolve_session C now token t)
  unfolding resolve_session
  resolve_session-Found now token t =
      option_elim (Found now token t) (by_token C token t.sessions) (λ e. tt)
        λ s e.
          if_elim (Found now token t) (is_some s.revoked_at) (λ b. tt)
            λ kept.
              if_elim (Found now token t) (leb s.expires_at now) (λ b. tt)
                λ early.
                  option_elim (Found now token t) (by_id s.user_id t.users) (λ e'. tt)
                    λ u found. record {
                      its = e;
                      kept = ground (arith, kept);
                      early = ground (arith, early);
                      owner = found;
                    }

  -- A request with a live session in its cookie, whose role fits the path.
  pub record IsGranted (now : ℕ) (url : List ℕ) (header : Option (List ℕ)) (t : Tables)
      (a : AdminSession) : Type 0 where
    pub token : List ℕ
    pub row : Session
    pub user : AdminUser
    pub cookie : read_session_cookie C decode header ≡ some (some token)
    pub live : IsLive now token t row user
    pub told : a ≡ session_of C decode (row, user)
    pub fits : is_admin_only url ≡ true → is_admin a.role ≡ true

  abbrev Outcome : ℕ → List ℕ → Option (List ℕ) → Tables → Verdict → Type 0
  Outcome now url header t (granted a) = IsGranted now url header t a
  Outcome now url header t _ = Unit

  judge-Outcome :
      (now : ℕ) (url token : List ℕ) (header : Option (List ℕ)) (t : Tables)
      (found : Option (Session × AdminUser))
      → read_session_cookie C decode header ≡ some (some token)
      → Found now token t found
      → Outcome now url header t (judge C decode url found)
  unfolding judge
  judge-Outcome now url token header t none cookie live = tt
  judge-Outcome now url token header t (some (s, u)) cookie live =
      if_elim (Outcome now url header t) (not (is_admin u.role) && is_admin_only url) (λ b. tt)
        λ fits. record {
          token = token;
          row = s;
          user = u;
          cookie = cookie;
          live = live;
          told = refl;
          fits = role_fits (is_admin u.role) (is_admin_only url) fits;
        }

  on_cookie-Outcome :
      (now : ℕ) (url : List ℕ) (header : Option (List ℕ)) (t : Tables)
      (c : Option (Option (List ℕ)))
      → read_session_cookie C decode header ≡ c
      → Outcome now url header t (on_cookie C decode now url t c)
  unfolding on_cookie
  on_cookie-Outcome now url header t none e = tt
  on_cookie-Outcome now url header t (some none) e = tt
  on_cookie-Outcome now url header t (some (some token)) e =
      if_elim (Outcome now url header t) (token == []) (λ b. tt)
        λ b.
          judge-Outcome now url token header t (resolve_session C now token t) e
            (resolve_session-Found now token t)

  on_request-Outcome :
      (now : ℕ) (url : List ℕ) (header : Option (List ℕ)) (t : Tables)
      → Outcome now url header t (on_request C decode now url header t)
  unfolding on_request
  on_request-Outcome now url header t =
      let P = Outcome now url header t in
      if_elim P (not (starts_with (units "/admin/") url)) (λ b. tt)
        λ b.
          if_elim P (is_public url) (λ b. tt)
            λ b. on_cookie-Outcome now url header t (read_session_cookie C decode header) refl

  -- A request is let through with a session only if its cookie holds the token of a session that is
  -- not revoked and not expired, of a user who is in the table, and only with the role of an
  -- administrator where the path is one for administrators. Whether the user is enabled is not asked.
  pub on_request-IsGranted :
      (now : ℕ) (url : List ℕ) (header : Option (List ℕ)) (t : Tables) (a : AdminSession)
      → on_request C decode now url header t ≡ granted a
      → IsGranted now url header t a
  on_request-IsGranted now url header t a h =
      subst (Outcome now url header t) h (on_request-Outcome now url header t)

  -- A request to a guarded path with the token of a session that was logged out is refused as
  -- unauthorized, at any later time and after any calls of the service in which no login takes a
  -- token with the same hash.
  pub on_request-logout :
      (now later : ℕ) (url token : List ℕ) (header : Option (List ℕ)) (t : Tables)
      (ops : List (Op C))
      → starts_with (units "/admin/") url ≡ true
      → is_public url ≡ false
      → read_session_cookie C decode header ≡ some (some token)
      → All (IsOther C token) ops
      → on_request C decode later url header (run C ops (logout C now token t))
        ≡ thrown unauthorized
  unfolding on_request on_cookie judge
  on_request-logout now later url token header t ops guarded closed cookie other =
      rw (guarded, closed, cookie, resolve_session-logout C token now later t ops other)
        (if_same (token == []) (thrown unauthorized))
