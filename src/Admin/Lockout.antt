-- ===== src/Admin/Lockout.antt =====
-- How many passwords can be tried on one account while the window of a lock lasts, by logins that
-- follow one another.
use mathlib.Core.Option
use freellm_gateway.Base.{
  ℕ, ◌+◌, ◌-◌, ◌≤◌, ◌<◌, max, String, Bool, true, false, Option, none, some, List, [], ◌∷◌, map,
  find-map, ◌≡◌, refl, ◌∙◌, ap, arith, ◌==◌, eq_string, eq_units, ==-refl, if◌then◌else◌, leb, All,
  Bool-cases, inl, inr,
}
use freellm_gateway.Admin.{
  Crypto, AdminUser, Tables, Meta, bad_password, LoginAnswer, logged_in, refused, lockout_ms,
  failed_login_limit, by_name, edit, edit_if, is_locked, count_failure, verify_password, login,
  login_as, unknown_user, locked, disabled,
}

-- An attempt: the time, the id and the token that a session would take, and the password.
pub record Guess : Type 0 where
  pub at : ℕ
  pub session_id : String
  pub token : List ℕ
  pub password : List ℕ

-- Whether the answer tells that a password was compared and is wrong.
abbrev pub is_tried : LoginAnswer → Bool
is_tried (logged_in user token expires_at) = false
is_tried (refused bad_password until) = true
is_tried (refused _ until) = false

pub by_name-edit :
    (username : List ℕ) (id : String) (f : AdminUser → AdminUser) (users : List AdminUser)
    → ((u : AdminUser) → (f u).username ≡ u.username)
    → by_name username (map (edit_if id f) users)
      ≡ Option.map (edit_if id f) (by_name username users)
by_name-edit username id f users same =
    find-map (λ (u : AdminUser). u.username == username) (edit_if id f) users keeps
  where
    keeps : (u : AdminUser) → ((edit_if id f u).username == username) ≡ (u.username == username)
    keeps u = elim (Bool-cases (u.id == id)) [
      | inl mine ↦ rw (mine, same u) refl
      | inr other ↦ rw other refl
    ]

-- The tries left on an account until a time: none under a lock that lasts so long.
abbrev budget : ℕ → AdminUser → ℕ
budget end u = elim u.locked_until [
  | none ↦ max 1 (failed_login_limit - u.failed_logins)
  | some until ↦ if leb end until then 0 else max 1 (failed_login_limit - u.failed_logins)
]

budget-count_failure :
    (start now : ℕ) (u : AdminUser)
    → start ≤ now
    → now < start + lockout_ms
    → is_locked now u ≡ false
    → 1 + budget (start + lockout_ms) (count_failure now u u) ≤ budget (start + lockout_ms) u
budget-count_failure start now u h k free = ground (arith, h, k, free)

module _ (C : Crypto) (username : List ℕ) (about : Meta) where
  -- The attempts in turn, each over what the one before it left, and how many of them tried a password.
  unfoldable pub tries : List Guess → Tables → ℕ
  tries [] t = 0
  tries (g ∷ gs) t =
      let (answer, t') = login C g.at g.session_id g.token username g.password about t in
      (if is_tried answer then 1 else 0) + tries gs t'

  abbrev pub IsWrong : AdminUser → Guess → Type 0
  IsWrong u g = verify_password C g.password u.password_hash ≡ false

  login-known :
      (g : Guess) (t : Tables) (u : AdminUser)
      → by_name username t.users ≡ some u
      → login C g.at g.session_id g.token username g.password about t
        ≡ login_as C g.at g.session_id g.token g.password about u t
  unfolding login
  login-known g t u e =
      ap
        (λ (found : Option AdminUser). elim found [
          | none ↦ (refused unknown_user none, t)
          | some v ↦ login_as C g.at g.session_id g.token g.password about v t
        ])
        e

  login_as-disabled :
      (g : Guess) (t : Tables) (u : AdminUser)
      → u.enabled ≡ false
      → login_as C g.at g.session_id g.token g.password about u t ≡ (refused disabled none, t)
  unfolding login_as
  login_as-disabled g t u off = simp off

  login_as-locked :
      (g : Guess) (t : Tables) (u : AdminUser)
      → u.enabled ≡ true
      → is_locked g.at u ≡ true
      → login_as C g.at g.session_id g.token g.password about u t
        ≡ (refused locked u.locked_until, t)
  unfolding login_as
  login_as-locked g t u on held = simp (on, held)

  pub login_as-count_failure :
      (g : Guess) (t : Tables) (u : AdminUser)
      → u.enabled ≡ true
      → is_locked g.at u ≡ false
      → IsWrong u g
      → login_as C g.at g.session_id g.token g.password about u t ≡ (
        refused bad_password (count_failure g.at u u).locked_until,
        edit u.id (count_failure g.at u) t,
      )
  unfolding login_as
  login_as-count_failure g t u on free wrong = simp (on, free, wrong)

  by_name-count_failure :
      (now : ℕ) (t : Tables) (u : AdminUser)
      → by_name username t.users ≡ some u
      → by_name username (edit u.id (count_failure now u) t).users ≡ some (count_failure now u u)
  by_name-count_failure now t u e =
      by_name-edit username u.id (count_failure now u) t.users (λ v. refl)
      ∙ ap (λ (found : Option AdminUser). Option.map (edit_if u.id (count_failure now u)) found) e
      ∙ rw (==-refl u.id) refl

  tries-budget :
      (start : ℕ) (guesses : List Guess) (t : Tables) (u : AdminUser)
      → by_name username t.users ≡ some u
      → All (IsWrong u) guesses
      → All (λ g. (start ≤ g.at) × (g.at < start + lockout_ms)) guesses
      → tries guesses t ≤ budget (start + lockout_ms) u
  unfolding tries login_as
  tries-budget start [] t u e wrong within = omega arith
  tries-budget start (g ∷ gs) t u e wrong within =
      let rest = tries-budget start gs t u e wrong.1 within.1 in
      elim (Bool-cases u.enabled) [
        | inr off ↦ rw (login-known g t u e ∙ login_as-disabled g t u off) (omega (arith, rest))
        | inl on ↦ elim (Bool-cases (is_locked g.at u)) [
          | inl held ↦
              rw (login-known g t u e ∙ login_as-locked g t u on held) (omega (arith, rest))
          | inr free ↦
              let failed =
                tries-budget start gs (edit u.id (count_failure g.at u) t) (count_failure g.at u u)
                  (by_name-count_failure g.at t u e) wrong.1 within.1 in
              let spent = budget-count_failure start g.at u within.0.0 within.0.1 free in
              rw (login-known g t u e ∙ login_as-count_failure g t u on free wrong.0)
                (omega (arith, failed, spent))
        ]
      ]

  -- Of the logins of one account that follow one another, each found and answered before the next one
  -- begins, at most five compare a password within ten minutes, as long as none is right: every other
  -- one is refused unseen.
  pub tries_le :
      (start : ℕ) (guesses : List Guess) (t : Tables) (u : AdminUser)
      → by_name username t.users ≡ some u
      → All (IsWrong u) guesses
      → All (λ g. (start ≤ g.at) × (g.at < start + lockout_ms)) guesses
      → tries guesses t ≤ failed_login_limit
  tries_le start guesses t u e wrong within =
      let all = tries-budget start guesses t u e wrong within in ground (arith, all)
