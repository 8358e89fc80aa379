-- ===== src/Witnesses/Admins.antt =====
-- Two administrators: guesses of a password, changes of the table, and requests with a session.
use freellm_gateway.Base.{
  ℕ, ◌≤◌, true, Option, none, some, List, [], ◌∷◌, ◌≡◌, refl, arith, ◌==◌, eq_units, if◌then◌else◌,
}
use freellm_gateway.Classify.Regex.{units}
use freellm_gateway.Errors.{unauthorized}
use freellm_gateway.Admin.{
  Crypto, AdminUser, admin, user, Session, Tables, Meta, failed_login_limit, logout, session_ttl_ms,
  new_session,
}
use freellm_gateway.Admin.Lockout.{Guess, tries, tries_le}
use freellm_gateway.Admin.Race.{overlapping, CountsOne, overlapping_lem}
use freellm_gateway.Admin.Roles.{
  Op, creates, sets_role, deletes, unlocks, run, IsGoverned, run-IsGoverned,
}
use freellm_gateway.Admin.Auth.{AdminSession, granted, thrown, on_request}
use freellm_gateway.Admin.Auth.Granted.{IsGranted, on_request-IsGranted, on_request-logout}

abbrev crypto : Crypto
crypto = record {
  scrypt = λ plain salt. if plain == units "correct horse" then "5f" else "00";
  sha256 = λ token. if token == units "aa" then "t1" else "t2";
}

abbrev alice : AdminUser
alice = record {
  id = "u1";
  username = units "alice";
  password_hash = record { scheme = "scrypt"; salt = "ab"; digest = "5f" };
  role = admin;
  enabled = true;
  failed_logins = 0;
  locked_until = none;
  last_login_at = none;
  last_login_ip = none;
}

abbrev about : Meta
about = record { ip = none; user_agent = none }

abbrev tables : Tables
tables = record {
  users = alice ∷ [];
  sessions = new_session crypto 1000 "s1" (units "aa") about alice ∷ [];
}

abbrev guess : ℕ → Guess
guess at = record { at = at; session_id = "s2"; token = units "bb"; password = units "12345678" }

abbrev guesses : List Guess
guesses = guess 1 ∷ guess 2 ∷ guess 3 ∷ guess 4 ∷ guess 5 ∷ guess 6 ∷ guess 599999 ∷ []

five : tries crypto (units "alice") about guesses tables ≡ 5
unfolding tries units freellm_gateway.Admin.login freellm_gateway.Admin.login_as
    freellm_gateway.Admin.verify_password
five = refl

tries_le_example : tries crypto (units "alice") about guesses tables ≤ failed_login_limit
unfolding units freellm_gateway.Admin.verify_password
tries_le_example =
    tries_le crypto (units "alice") about 0 guesses tables alice refl
      (refl, (refl, (refl, (refl, (refl, (refl, (refl, tt))))))) (omega arith)

-- Seven at once, of which one alone is counted.
overlapping_lem_example :
    ((overlapping crypto (units "alice") about alice guesses tables).0 ≡ 7)
    × CountsOne crypto
        (units "alice")
        about
        alice
        (overlapping crypto (units "alice") about alice guesses tables).1
unfolding units freellm_gateway.Admin.verify_password
overlapping_lem_example =
    overlapping_lem crypto (units "alice") about alice (guess 1)
      (guess 2 ∷ guess 3 ∷ guess 4 ∷ guess 5 ∷ guess 6 ∷ guess 599999 ∷ []) tables refl refl
      (refl, (refl, (refl, (refl, (refl, (refl, (refl, tt)))))))
      (refl, (refl, (refl, (refl, (refl, (refl, (refl, tt)))))))

abbrev ops : List (Op crypto)
ops =
    creates "u2" "cd" (units " bob ") (units "12345678") admin
    ∷ sets_role "u1" user
    ∷ deletes "u1" "u2"
    ∷ unlocks "u2"
    ∷ []

one_admin : IsGoverned (alice ∷ [])
one_admin = record { keyed = λ id. ground arith; governed = omega arith }

run-IsGoverned_example : IsGoverned (run crypto ops tables).users
unfolding run units freellm_gateway.Admin.Roles.step freellm_gateway.Admin.create_user
    freellm_gateway.Admin.set_role freellm_gateway.Keys.Secret.trim
    freellm_gateway.Keys.Secret.trim_start freellm_gateway.Keys.Secret.trim_end
run-IsGoverned_example =
    run-IsGoverned crypto ops tables (refl, (tt, ((_, refl, refl), (tt, tt)))) one_admin

abbrev decode : List ℕ → Option (List ℕ)
decode text = some text

abbrev header : Option (List ℕ)
header = some (units "theme=dark; freellm_admin_session=aa")

abbrev alices : AdminSession
alices = record { user_id = "u1"; session_id = "s1"; username = units "alice"; role = admin }

let_in : on_request crypto decode 2000 (units "/admin/users?page=2") header tables ≡ granted alices
unfolding on_request units freellm_gateway.Admin.Auth.on_cookie freellm_gateway.Admin.Auth.judge
    freellm_gateway.Admin.Auth.is_admin_only freellm_gateway.Admin.Auth.is_public
    freellm_gateway.Admin.Auth.read_session_cookie freellm_gateway.Admin.Auth.find_cookie
    freellm_gateway.Admin.Auth.split_at freellm_gateway.Admin.Auth.join_equals
    freellm_gateway.Admin.resolve_session freellm_gateway.Keys.Secret.trim
    freellm_gateway.Keys.Secret.trim_start freellm_gateway.Keys.Secret.trim_end
let_in = refl

on_request-IsGranted_example :
    IsGranted crypto decode 2000 (units "/admin/users?page=2") header tables alices
on_request-IsGranted_example =
    on_request-IsGranted crypto decode 2000 (units "/admin/users?page=2") header tables alices
      let_in

on_request-logout_example :
    on_request crypto decode 5000
      (units "/admin/users")
      header
      (run crypto ops (logout crypto 3000 (units "aa") tables))
    ≡ thrown unauthorized
unfolding units freellm_gateway.Admin.Auth.is_public freellm_gateway.Admin.Auth.read_session_cookie
    freellm_gateway.Admin.Auth.find_cookie freellm_gateway.Admin.Auth.split_at
    freellm_gateway.Admin.Auth.join_equals freellm_gateway.Keys.Secret.trim
    freellm_gateway.Keys.Secret.trim_start freellm_gateway.Keys.Secret.trim_end
on_request-logout_example =
    on_request-logout crypto decode 3000 5000 (units "/admin/users") (units "aa") header tables ops
      refl refl refl (tt, (tt, (tt, (tt, tt))))
