-- ===== src/Admin/Race.antt =====
-- Logins of one account that overlap: `login` of apps/api/src/services/admin-user.service.ts reads the
-- row of the user, waits, and writes the counter that it computed from what it read.
use mathlib.Core.Option
use freellm_gateway.Base.{
  ℕ, ◌+◌, true, false, Option, some, List, [], ◌∷◌, length, ◌≡◌, refl, ◌∙◌, ap, arith,
  if◌then◌else◌, All, if_yes, ◌==◌, eq_string,
}
use freellm_gateway.Admin.{
  Crypto, AdminUser, Tables, Meta, by_name, edit, edit_if, is_locked, count_failure, login_as,
}
use freellm_gateway.Admin.Lockout.{Guess, is_tried, by_name-edit, IsWrong, login_as-count_failure}

module _ (C : Crypto) (username : List ℕ) (about : Meta) where
  -- Logins that all found the user as u, and write in turn: how many of them tried a password, and
  -- the tables in the end.
  unfoldable pub overlapping : AdminUser → List Guess → Tables → ℕ × Tables
  overlapping u [] t = (0, t)
  overlapping u (g ∷ gs) t =
      let (answer, t') = login_as C g.at g.session_id g.token g.password about u t in
      let (n, t'') = overlapping u gs t' in ((if is_tried answer then 1 else 0) + n, t'')

  -- A failure that found u writes over the counter of the user's row, whatever stands there.
  by_name-count_failure :
      (u v : AdminUser) (now : ℕ) (t : Tables)
      → v.id ≡ u.id
      → by_name username t.users ≡ some v
      → by_name username (edit u.id (count_failure now u) t).users ≡ some (count_failure now u v)
  by_name-count_failure u v now t mine e =
      let same : (v.id == u.id) ≡ true = (eq_string.agree_iff v.id u.id).1 mine in
      by_name-edit username u.id (count_failure now u) t.users (λ w. refl)
      ∙ ap (λ (found : Option AdminUser). Option.map (edit_if u.id (count_failure now u)) found) e
      ∙ ap (λ (w : AdminUser). some w) (if_yes (v.id == u.id) _ _ same)

  -- The user's row has one failure more than u.
  abbrev pub CountsOne : AdminUser → Tables → Type 0
  CountsOne u t =
      (w : AdminUser) × (by_name username t.users ≡ some w)
      × (w.id ≡ u.id)
      × (w.failed_logins ≡ u.failed_logins + 1)

  abbrev AllTried : AdminUser → List Guess → Tables → Type 0
  AllTried u gs t = ((overlapping u gs t).0 ≡ length gs) × CountsOne u (overlapping u gs t).1

  first-AllTried :
      (u v : AdminUser) (g : Guess) (gs : List Guess) (t : Tables)
      → u.enabled ≡ true
      → v.id ≡ u.id
      → by_name username t.users ≡ some v
      → is_locked g.at u ≡ false
      → IsWrong C username about u g
      → ((t' : Tables) → CountsOne u t' → AllTried u gs t')
      → AllTried u (g ∷ gs) t
  unfolding overlapping
  first-AllTried u v g gs t on mine e free wrong others =
      let next =
        others (edit u.id (count_failure g.at u) t)
          (count_failure g.at u v, by_name-count_failure u v g.at t mine e, mine, refl) in
      rw (login_as-count_failure C username about g t u on free wrong)
        (omega (arith, next.0), next.1)

  others-AllTried :
      (u : AdminUser) (gs : List Guess) (t : Tables)
      → u.enabled ≡ true
      → CountsOne u t
      → All (λ g. is_locked g.at u ≡ false) gs
      → All (IsWrong C username about u) gs
      → AllTried u gs t
  unfolding overlapping
  others-AllTried u [] t on row free wrong = (refl, row)
  others-AllTried u (g ∷ gs) t on (v, e, mine, one) free wrong =
      first-AllTried u v g gs t on mine e free.0 wrong.0
        (λ t' row. others-AllTried u gs t' on row free.1 wrong.1)

  -- Logins with wrong passwords that overlap, in that all of them find the user's row, enabled and not
  -- locked, before one of them writes, compare their passwords one and all, however many they are;
  -- and together they raise the counter by one.
  pub overlapping_lem :
      (u : AdminUser) (g : Guess) (gs : List Guess) (t : Tables)
      → by_name username t.users ≡ some u
      → u.enabled ≡ true
      → All (λ h. is_locked h.at u ≡ false) (g ∷ gs)
      → All (IsWrong C username about u) (g ∷ gs)
      → ((overlapping u (g ∷ gs) t).0 ≡ length (g ∷ gs)) × CountsOne u (overlapping u (g ∷ gs) t).1
  overlapping_lem u g gs t e on free wrong =
      first-AllTried u u g gs t on refl e free.0 wrong.0
        (λ t' row. others-AllTried u gs t' on row free.1 wrong.1)
