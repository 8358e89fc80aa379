-- ===== src/Admin/Roles.antt =====
-- How many administrators are left.
use freellm_gateway.Base.{
  true≢false, ℕ, ◌+◌, ◌≤◌, String, Bool, true, false, not, ◌&&◌, some, List, [], ◌∷◌, ◌++◌, map,
  filter, find, length, ◌≡◌, refl, sym, ◌∙◌, subst, arith, ◌==◌, eq_string, if◌then◌else◌, leb,
  is_some, Bool-cases, if_elim, option_elim, ltb, inl, inr,
}
use freellm_gateway.Keys.Secret.{trim}
use freellm_gateway.Admin.{
  AdminUser, Tables, Role, admin, user, is_admin, is_active_admin, is_enabled, Crypto, Meta,
  Session, is_locked, count_failure, succeed, verify_password, login, login_as, logout,
  revoke_session, change_password, create_user, reset_password, set_enabled, by_name, by_id,
  edit_if, set_role, delete_user, unlock, unlocked,
}

abbrev pub active_admins : List AdminUser → ℕ
active_admins users = length (filter is_active_admin users)

abbrev pub rows : String → List AdminUser → ℕ
rows id users = length (filter (λ (u : AdminUser). u.id == id) users)

-- The active administrators among the rows of an id.
abbrev held : String → List AdminUser → ℕ
held id users = length (filter (λ (u : AdminUser). u.id == id && is_active_admin u) users)

held-rows : (id : String) (users : List AdminUser) → held id users ≤ rows id users
held-rows id [] = omega arith
held-rows id (u ∷ us) = ground (arith, held-rows id us)

-- An edit of one id takes at most the administrators with that id away.
active_admins-edit :
    (id : String) (f : AdminUser → AdminUser) (users : List AdminUser)
    → active_admins users ≤ active_admins (map (edit_if id f) users) + held id users
active_admins-edit id f [] = omega arith
active_admins-edit id f (u ∷ us) =
    let ih = active_admins-edit id f us in
    elim (Bool-cases (u.id == id)) [
      | inl mine ↦ rw mine (ground (arith, ih))
      | inr other ↦ rw other (ground (arith, ih))
    ]

-- An edit that keeps administrators active takes none away.
active_admins-kept :
    (id : String) (f : AdminUser → AdminUser)
    → ((u : AdminUser) → is_active_admin u ≡ true → is_active_admin (f u) ≡ true)
    → (users : List AdminUser) → active_admins users ≤ active_admins (map (edit_if id f) users)
active_admins-kept id f keeps [] = omega arith
active_admins-kept id f keeps (u ∷ us) =
    let ih = active_admins-kept id f keeps us in
    let kept = keeps u in
    elim (Bool-cases (u.id == id)) [
      | inl mine ↦ rw mine (ground (arith, ih, kept))
      | inr other ↦ rw other (ground (arith, ih))
    ]

-- The only row of an id is no active administrator.
held_none :
    (id : String) (users : List AdminUser) (u : AdminUser)
    → by_id id users ≡ some u
    → is_active_admin u ≡ false
    → rows id users ≤ 1
    → held id users ≡ 0
held_none id [] u e off one = refl
held_none id (v ∷ vs) u e off one = elim (Bool-cases (v.id == id)) [
  | inl mine ↦ ground (arith, rw mine at e, rw mine at one, off, held-rows id vs)
  | inr other ↦ rw other (held_none id vs u (rw other at e) off (rw other at one))
]

-- Deleting another id leaves an active administrator there.
active_admins-delete :
    (id current : String) (users : List AdminUser) (c : AdminUser)
    → (id == current) ≡ false
    → by_id current users ≡ some c
    → is_active_admin c ≡ true
    → 1 ≤ active_admins (filter (λ (u : AdminUser). not (u.id == id)) users)
active_admins-delete id current [] c apart e on = absurd (cc)
active_admins-delete id current (u ∷ us) c apart e on = elim (Bool-cases (u.id == current)) [
  | inl mine ↦
      let found = rw mine at e in
      let its = (eq_string.agree_iff u.id current).0 mine in
      elim (Bool-cases (u.id == id)) [
        | inl same ↦ absurd (
            true≢false (
              sym (
                (eq_string.agree_iff id current).1
                  (sym ((eq_string.agree_iff u.id id).0 same) ∙ its))
              ∙ apart))
        | inr differs ↦ rw differs (ground (arith, found, on))
      ]
  | inr other ↦
      let ih = active_admins-delete id current us c apart (rw other at e) on in ground (arith, ih)
]

-- The ids are a key, and an administrator is active.
pub record IsGoverned (users : List AdminUser) : Type 0 where
  pub keyed : (id : String) → rows id users ≤ 1
  pub governed : 1 ≤ active_admins users

rows-edit :
    (k id : String) (f : AdminUser → AdminUser)
    → ((u : AdminUser) → (f u).id ≡ u.id)
    → (users : List AdminUser) → rows k (map (edit_if id f) users) ≡ rows k users
rows-edit k id f same [] = refl
rows-edit k id f same (u ∷ us) =
    let ih = rows-edit k id f same us in
    let kept = same u in
    elim (Bool-cases (u.id == id)) [
      | inl mine ↦ rw mine (ground (arith, ih, kept))
      | inr other ↦ rw other (ground (arith, ih))
    ]

edit-IsGoverned :
    (id : String) (f : AdminUser → AdminUser)
    → ((u : AdminUser) → (f u).id ≡ u.id)
    → (users : List AdminUser) → 1 ≤ active_admins (map (edit_if id f) users)
    → IsGoverned users
    → IsGoverned (map (edit_if id f) users)
edit-IsGoverned id f same users left inv = record {
  keyed = λ k. omega (arith, rows-edit k id f same users, inv.keyed k);
  governed = left;
}

-- An edit that changes neither the role nor the mark leaves as many administrators.
kept-IsGoverned :
    (id : String) (f : AdminUser → AdminUser)
    → ((u : AdminUser) → (f u).id ≡ u.id)
    → ((u : AdminUser) → is_active_admin u ≡ true → is_active_admin (f u) ≡ true)
    → (users : List AdminUser) → IsGoverned users
    → IsGoverned (map (edit_if id f) users)
kept-IsGoverned id f same keeps users inv =
    edit-IsGoverned id f same users
      (omega (arith, active_admins-kept id f keeps users, inv.governed)) inv

rows-filter :
    (k id : String) (users : List AdminUser)
    → rows k (filter (λ (u : AdminUser). not (u.id == id)) users) ≤ rows k users
rows-filter k id [] = omega arith
rows-filter k id (u ∷ us) = ground (arith, rows-filter k id us)

rows-snoc :
    (k : String) (users : List AdminUser) (nu : AdminUser)
    → rows k (users ++ nu ∷ []) ≡ rows k users + (if nu.id == k then 1 else 0)
rows-snoc k [] nu = ground arith
rows-snoc k (u ∷ us) nu = ground (arith, rows-snoc k us nu)

active_admins-snoc :
    (users : List AdminUser) (nu : AdminUser)
    → active_admins users ≤ active_admins (users ++ nu ∷ [])
active_admins-snoc [] nu = omega arith
active_admins-snoc (u ∷ us) nu = ground (arith, active_admins-snoc us nu)

snoc-IsGoverned :
    (users : List AdminUser) (nu : AdminUser)
    → rows nu.id users ≡ 0
    → IsGoverned users
    → IsGoverned (users ++ nu ∷ [])
snoc-IsGoverned users nu fresh inv = record {
  keyed = λ k. elim (Bool-cases (nu.id == k)) [
    | inl its ↦
        let none_there =
          subst (λ i. rows i users ≡ 0) ((eq_string.agree_iff nu.id k).0 its) fresh in
        let count = rows-snoc k users nu in ground (arith, none_there, count)
    | inr other ↦
        let count = rows-snoc k users nu in
        let before = inv.keyed k in ground (arith, other, count, before)
  ];
  governed = omega (arith, active_admins-snoc users nu, inv.governed);
}

-- A demotion that `setRole` lets through leaves an administrator.
demoted-IsGoverned :
    (id : String) (u : AdminUser) (users : List AdminUser)
    → by_id id users ≡ some u
    → (is_admin u.role && true && leb (active_admins users) 1) ≡ false
    → IsGoverned users
    → IsGoverned (map (edit_if id (λ v. record v { role = user })) users)
demoted-IsGoverned id u users e allowed inv =
    let f : AdminUser → AdminUser = λ v. record v { role = user } in
    let spread = active_admins-edit id f users in
    let few = held-rows id users in
    let one = inv.keyed id in
    let some_left = inv.governed in
    edit-IsGoverned id f (λ v. refl) users
      (elim (Bool-cases (is_active_admin u)) [
        | inl on ↦ ground (arith, on, allowed, spread, few, one)
        | inr off ↦ omega (arith, held_none id users u e off one, spread, some_left)
      ])
      inv

module _ (C : Crypto) where
  -- The calls that write the tables, with what they are given.
  pub data Op : Type 0 where
    logs_in : ℕ → String → List ℕ → List ℕ → List ℕ → Meta → Op
    logs_out : ℕ → List ℕ → Op
    revokes : ℕ → String → Op
    changes : String → String → List ℕ → List ℕ → Op
    creates : String → String → List ℕ → List ℕ → Role → Op
    resets : String → String → List ℕ → Op
    sets_role : String → Role → Op
    sets_enabled : String → Bool → Op
    unlocks : String → Op
    deletes : String → String → Op

  unfoldable pub step : Op → Tables → Tables
  step (logs_in now id token username password about) t =
      (login C now id token username password about t).1
  step (logs_out now token) t = logout C now token t
  step (revokes now id) t = (revoke_session C now id t).1
  step (changes salt id old new) t = (change_password C salt id old new t).1
  step (creates id salt username password role) t =
      (create_user C id salt username password role t).1
  step (resets salt id new) t = (reset_password C salt id new t).1
  step (sets_role id role) t = (set_role id role t).1
  step (sets_enabled id enabled) t = (set_enabled id enabled t).1
  step (unlocks id) t = (unlock id t).1
  step (deletes id current) t = (delete_user id current t).1

  -- A new user has a new id, who deletes is an active administrator, and nobody is disabled.
  abbrev pub Fits : Op → Tables → Type 0
  Fits (creates id salt username password role) t = rows id t.users ≡ 0
  Fits (deletes id current) t =
      (c : AdminUser) × (by_id current t.users ≡ some c) × (is_active_admin c ≡ true)
  Fits (sets_enabled id enabled) t = enabled ≡ true
  Fits _ t = Unit

  abbrev Governs : {A : Type 0} → A × Tables → Type 0
  Governs r = IsGoverned r.1.users

  login-IsGoverned :
      (now : ℕ) (id : String) (token username password : List ℕ) (about : Meta) (t : Tables)
      → IsGoverned t.users
      → Governs (login C now id token username password about t)
  unfolding login login_as
  login-IsGoverned now id token username password about t inv =
      option_elim Governs (by_name username t.users) (λ e. inv)
        λ u e.
          if_elim Governs (not u.enabled) (λ off. inv)
            λ on.
              if_elim Governs (is_locked now u) (λ held. inv)
                λ free.
                  if_elim Governs (not (verify_password C password u.password_hash))
                    (λ wrong.
                      kept-IsGoverned u.id (count_failure now u) (λ v. refl) (λ v h. h) t.users inv)
                    (λ right.
                      kept-IsGoverned u.id (succeed now about) (λ v. refl) (λ v h. h) t.users inv)

  step-IsGoverned :
      (op : Op) (t : Tables) → Fits op t → IsGoverned t.users → IsGoverned (step op t).users
  unfolding step logout revoke_session change_password create_user reset_password set_role
      set_enabled unlock delete_user
  step-IsGoverned (logs_in now id token username password about) t fits inv =
      login-IsGoverned now id token username password about t inv
  step-IsGoverned (logs_out now token) t fits inv = inv
  step-IsGoverned (revokes now id) t fits inv =
      option_elim Governs (find (λ (s : Session). s.id == id) t.sessions) (λ e. inv) λ s e. inv
  step-IsGoverned (changes salt id old new) t fits inv =
      option_elim Governs (by_id id t.users) (λ e. inv)
        λ u e.
          if_elim Governs (not (verify_password C old u.password_hash)) (λ wrong. inv)
            (λ right. kept-IsGoverned id _ (λ v. refl) (λ v h. h) t.users inv)
  step-IsGoverned (creates id salt username password role) t fits inv =
      if_elim Governs (ltb (length (trim username)) 3) (λ b. inv)
        λ b.
          if_elim Governs (ltb 32 (length (trim username))) (λ b. inv)
            λ b.
              if_elim Governs (ltb (length password) 8) (λ b. inv)
                λ b.
                  if_elim Governs (is_some (by_name (trim username) t.users)) (λ b. inv)
                    λ b. snoc-IsGoverned t.users _ fits inv
  step-IsGoverned (resets salt id new) t fits inv =
      if_elim Governs (ltb (length new) 8) (λ short. inv)
        λ long.
          option_elim Governs (by_id id t.users) (λ e. inv)
            λ u e. kept-IsGoverned id _ (λ v. refl) (λ v h. h) t.users inv
  step-IsGoverned (sets_role id admin) t fits inv =
      option_elim Governs (by_id id t.users) (λ e. inv)
        λ u e.
          if_elim Governs (is_admin u.role && false && leb (active_admins t.users) 1) (λ b. inv)
            λ b. kept-IsGoverned id _ (λ v. refl) (λ v h. ground (arith, h)) t.users inv
  step-IsGoverned (sets_role id user) t fits inv =
      option_elim Governs (by_id id t.users) (λ e. inv)
        λ u e.
          if_elim Governs (is_admin u.role && true && leb (active_admins t.users) 1) (λ b. inv)
            λ b. demoted-IsGoverned id u t.users e b inv
  step-IsGoverned (sets_enabled id enabled) t fits inv =
      option_elim Governs (by_id id t.users) (λ e. inv)
        λ u e. kept-IsGoverned id _ (λ v. refl) (λ v h. ground (arith, h, fits)) t.users inv
  step-IsGoverned (unlocks id) t fits inv =
      option_elim Governs (by_id id t.users) (λ e. inv)
        λ u e. kept-IsGoverned id unlocked (λ v. refl) (λ v h. h) t.users inv
  step-IsGoverned (deletes id current) t (c, e, on) inv =
      if_elim Governs (id == current) (λ own. inv)
        λ apart.
          if_elim Governs (leb (length (filter is_enabled t.users)) 1) (λ few. inv)
            λ many.
              option_elim Governs (by_id id t.users) (λ e'. inv)
                λ u e'. record {
                  keyed = λ k. omega (arith, rows-filter k id t.users, inv.keyed k);
                  governed = active_admins-delete id current t.users c apart e on;
                }

  unfoldable pub run : List Op → Tables → Tables
  unfolding step
  run [] t = t
  run (op ∷ ops) t = run ops (step op t)

  -- Each call fits the tables that it finds.
  abbrev pub Fit : List Op → Tables → Type 0
  Fit [] t = Unit
  Fit (op ∷ ops) t = Fits op t × Fit ops (step op t)

  -- Through any calls of the service, an active administrator is left and the ids stay a key, if
  -- new users have new ids, users are deleted by an active administrator and `setEnabled` disables
  -- nobody.
  pub run-IsGoverned :
      (ops : List Op) (t : Tables) → Fit ops t → IsGoverned t.users → IsGoverned (run ops t).users
  unfolding run
  run-IsGoverned [] t fit inv = inv
  run-IsGoverned (op ∷ ops) t (fits, fit) inv =
      run-IsGoverned ops (step op t) fit (step-IsGoverned op t fits inv)
