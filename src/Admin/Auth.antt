-- ===== src/Admin/Auth.antt =====
-- apps/api/src/plugins/admin-auth.ts: the hook before every request, with the cookie and the paths
-- that only administrators may use. `decodeURIComponent` is a parameter, none where it throws.
pub mod Granted
use freellm_gateway.Base.{
  ℕ, String, Bool, true, false, not, ◌&&◌, ◌||◌, Option, none, some, List, [], ◌∷◌, ◌++◌, any, ◌==◌,
  eq_nat, eq_units, if◌then◌else◌, is_some,
}
use freellm_gateway.Classify.Regex.{units}
use freellm_gateway.Errors.{ErrorKind, unauthorized, forbidden}
use freellm_gateway.Keys.Secret.{after_prefix, trim}
use freellm_gateway.Admin.{
  Crypto, Role, admin, is_admin, AdminUser, Session, Tables, resolve_session,
}

pub record AdminSession : Type 0 where
  pub user_id : String
  pub session_id : String
  pub username : List ℕ
  pub role : Role

-- `text.split(sep)`, with the first part apart.
unfoldable pub split_at : ℕ → List ℕ → List ℕ × List (List ℕ)
split_at sep [] = ([], [])
split_at sep (c ∷ cs) =
    let (part, parts) = split_at sep cs in
    if c == sep then ([], part ∷ parts) else (c ∷ part, parts)

-- `parts.join('=')`
unfoldable pub join_equals : List (List ℕ) → List ℕ
join_equals [] = []
join_equals (p ∷ []) = p
join_equals (p ∷ q ∷ ps) = let rest = join_equals (q ∷ ps) in p ++ (b'=' ∷ rest)

abbrev pub cookie_name : String
cookie_name = "freellm_admin_session"

abbrev pub public_admin_prefixes : List String
public_admin_prefixes = "/admin/auth/login" ∷ "/admin/auth/logout" ∷ []

abbrev pub admin_only_prefixes : List String
admin_only_prefixes =
    "/admin/providers" ∷ "/admin/settings" ∷ "/admin/audit" ∷ "/admin/alerts" ∷ "/admin/webhooks"
    ∷ "/admin/system" ∷ "/admin/cron" ∷ "/admin/users" ∷ "/admin/sessions" ∷ "/admin/organizations"
    ∷ "/admin/projects" ∷ "/admin/metrics" ∷ "/admin/models" ∷ "/admin/routing-policies"
    ∷ "/admin/routing-policy" ∷ "/admin/cooldowns" ∷ "/admin/events" ∷ "/admin/test-chat"
    ∷ "/admin/usage" ∷ []

-- `text.startsWith(prefix + c)`
abbrev pub starts_with : List ℕ → List ℕ → Bool
starts_with prefix text = is_some (after_prefix prefix text)

abbrev pub starts_before : String → ℕ → List ℕ → Bool
starts_before prefix c text = starts_with (units prefix ++ c ∷ []) text

unfoldable pub is_admin_only : List ℕ → Bool
unfolding units split_at
is_admin_only url =
    let path = (split_at b'?' url).0 in
    any (λ p. (path == units p) || starts_before p b'/' path || starts_before p b'?' path)
      admin_only_prefixes

unfoldable pub is_public : List ℕ → Bool
unfolding units
is_public url = any (λ p. (url == units p) || starts_before p b'?' url) public_admin_prefixes

pub data Verdict : Type 0 where
  -- A request that the hook has no say in.
  passed : Verdict
  granted : AdminSession → Verdict
  thrown : ErrorKind → Verdict
  -- The error of `decodeURIComponent`.
  malformed : Verdict

module _ (C : Crypto) (decode : List ℕ → Option (List ℕ)) where
  -- The value of the first cookie with the name; inside, none where it does not decode.
  unfoldable pub find_cookie : List (List ℕ) → Option (Option (List ℕ))
  unfolding units trim split_at join_equals
  find_cookie [] = none
  find_cookie (piece ∷ pieces) =
      let later = find_cookie pieces in
      let (k, rest) = split_at b'=' (trim piece) in
      if k == units cookie_name then some (decode (join_equals rest)) else later

  -- `readSessionCookie`
  unfoldable pub read_session_cookie : Option (List ℕ) → Option (Option (List ℕ))
  unfolding find_cookie split_at
  read_session_cookie none = none
  read_session_cookie (some header) =
      let (piece, pieces) = split_at b';' header in
      if header == [] then none else find_cookie (piece ∷ pieces)

  abbrev pub session_of : Session × AdminUser → AdminSession
  session_of (s, u) = record {
    user_id = s.user_id;
    session_id = s.id;
    username = u.username;
    role = u.role;
  }

  -- The hook from the session on.
  unfoldable pub judge : List ℕ → Option (Session × AdminUser) → Verdict
  unfolding is_admin_only
  judge url none = thrown unauthorized
  judge url (some found) =
      let session = session_of found in
      if not (is_admin session.role) && is_admin_only url then thrown forbidden else granted session

  -- The hook from the cookie on.
  unfoldable pub on_cookie : ℕ → List ℕ → Tables → Option (Option (List ℕ)) → Verdict
  unfolding judge resolve_session
  on_cookie now url t none = thrown unauthorized
  on_cookie now url t (some none) = malformed
  on_cookie now url t (some (some token)) =
      if token == [] then thrown unauthorized else judge url (resolve_session C now token t)

  unfoldable pub on_request : ℕ → List ℕ → Option (List ℕ) → Tables → Verdict
  unfolding units is_public read_session_cookie on_cookie
  on_request now url header t =
      if not (starts_with (units "/admin/") url)
      then passed
      else if is_public url
      then passed
      else on_cookie now url t (read_session_cookie header)
