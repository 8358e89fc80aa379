-- ===== src/Keys/Charge.antt =====
-- What the limits of a request count, in their order.
use freellm_gateway.Base.{
  ℕ, suc, ◌+◌, ◌≤◌, String, Bool, true, false, Option, some, List, [], ◌∷◌, ◌≡◌, refl, sym, ◌∙◌,
  inl, inr, arith, All, Bool-cases, if◌then◌else◌, ◌==◌, eq_string, subst,
}
use freellm_gateway.Limits.{Store, enforce_org_rpm_async, enforce_demo_daily_requests}
use freellm_gateway.Keys.{AuthState, unlimited, enforce_rpm, enforce_daily_requests}
use freellm_gateway.Errors.{rate_limited}
use freellm_gateway.Keys.Service.{Codec, KeyRow, row_permissions}
use freellm_gateway.Keys.Hook.{
  Checked, refused, passed, within, Limit, charges, later_charges, in_store, organization_of,
  rpm_limit_of, has_demo_tokens,
}
use freellm_gateway.Keys.Quota.{
  Keeps, enforce_daily_requests-below, enforce_daily_requests-used, enforce_rpm-Keeps, used,
  used-key,
}

in_store-Keeps :
    (day key : String) (enforce : Store → Store × Bool)
    → Keeps day key (λ s. (in_store enforce s).0)
unfolding used
in_store-Keeps day key enforce s = refl

-- What passes over a list of limits of which none counts a request.
within-pass :
    (enforce : AuthState → AuthState × Bool) (why : String) (rest : List Limit) (s : AuthState)
    → (enforce s).1 ≡ true
    → within ((enforce, why) ∷ rest) s ≡ within rest (enforce s).0
unfolding within
within-pass enforce why rest s e = rw e refl

within-stop :
    (enforce : AuthState → AuthState × Bool) (why : String) (rest : List Limit) (s : AuthState)
    → (enforce s).1 ≡ false
    → within ((enforce, why) ∷ rest) s ≡ ((enforce s).0, refused rate_limited why)
unfolding within
within-stop enforce why rest s e = rw e refl

within-Keeps :
    (day key : String) (limits : List Limit)
    → All (λ (l : Limit). Keeps day key (λ s. (l.0 s).0)) limits
    → Keeps day key (λ s. (within limits s).0)
unfolding within
within-Keeps day key [] h s = refl
within-Keeps day key ((enforce, why) ∷ limits) h s = elim (Bool-cases (enforce s).1) [
  | inl e ↦
      rw (within-pass enforce why limits s e)
        (within-Keeps day key limits h.1 (enforce s).0 ∙ h.0 s)
  | inr e ↦ rw (within-stop enforce why limits s e) (h.0 s)
]

if-Keeps :
    (day key : String) (b : Bool) (f g : AuthState → AuthState × Bool)
    → Keeps day key (λ s. (f s).0)
    → Keeps day key (λ s. (g s).0)
    → Keeps day key (λ s. (if b then f s else g s).0)
if-Keeps day key true f g h k = h
if-Keeps day key false f g h k = k

abbrev pub passes : Checked (Unit {0}) → ℕ
passes (refused k why) = 0
passes (passed a) = 1

passes_le : (r : Checked (Unit {0})) → passes r ≤ 1
passes_le (refused k why) = omega arith
passes_le (passed a) = omega arith

-- A request is counted where it passes, and the count stays within the limit.
abbrev pub Counts : String → String → String → ℕ → ℕ → AuthState × Checked (Unit {0}) → Type 0
Counts day key other n before (s', r) =
    ((if other == key then passes r else 0) + before ≤ used day key s') × (used day key s' ≤ n)

module _ (day key other : String) (limit : Option ℕ) (n : ℕ)
    (given : (other == key) ≡ true → limit ≡ some (suc n)) where
  -- The daily limit, where a limit follows or refuses that counts no request.
  daily-pass :
      (s : AuthState)
      → used day key s ≤ suc n
      → (enforce_daily_requests other limit day s).1 ≡ true
      → ((if other == key then 1 else 0) + used day key s
          ≤ used day key (enforce_daily_requests other limit day s).0)
        × (used day key (enforce_daily_requests other limit day s).0 ≤ suc n)
  daily-pass s below ok = elim (Bool-cases (other == key)) [
    | inl e ↦
        let u : unlimited limit ≡ false = rw (given e) (ground arith) in
        ground (
          arith,
          enforce_daily_requests-used day key other limit s,
          ok,
          e,
          u,
          used-key day s other key e,
          enforce_daily_requests-below day other limit s u ok,
          given e,
        )
    | inr e ↦ ground (arith, enforce_daily_requests-used day key other limit s, e)
  ]

  daily-refuse :
      (s : AuthState)
      → (enforce_daily_requests other limit day s).1 ≡ false
      → used day key (enforce_daily_requests other limit day s).0 ≡ used day key s
  daily-refuse s no' = ground (arith, enforce_daily_requests-used day key other limit s, no')

  counted-within :
      (why : String) (rest : List Limit)
      → All (λ (l : Limit). Keeps day key (λ s. (l.0 s).0)) rest
      → (s : AuthState) → used day key s ≤ suc n
      → Counts day key other
          (suc n)
          (used day key s)
          (within ((enforce_daily_requests other limit day, why) ∷ rest) s)
  counted-within why rest keep s below =
      elim (Bool-cases (enforce_daily_requests other limit day s).1) [
        | inl ok ↦
            subst (Counts day key other (suc n) (used day key s))
              (sym (within-pass _ why rest s ok))
              (let s' = (enforce_daily_requests other limit day s).0 in
                let counted = daily-pass s below ok in
                let same = within-Keeps day key rest keep s' in
                ground (arith, counted, same, passes_le (within rest s').1))
        | inr no' ↦
            subst (Counts day key other (suc n) (used day key s))
              (sym (within-stop _ why rest s no')) (ground (arith, daily-refuse s no'))
      ]

module _ (C : Codec) where
  later_charges-Keep :
      (day key : String) (now : ℕ) (row : KeyRow C)
      → All (λ (l : Limit). Keeps day key (λ s. (l.0 s).0)) (later_charges C now day row)
  later_charges-Keep day key now row =
      let apart = λ (enforce : Store → Store × Bool). in_store-Keeps day key enforce in
      let playground = if-Keeps day key row.is_demo in
      (
        (λ s. refl),
        (
          if-Keeps day key _ _ _ (λ s. refl)
              (apart (
                enforce_org_rpm_async (organization_of C row.project) (rpm_limit_of C row.project)
                  now)),
          (
            playground _ _ (apart (enforce_demo_daily_requests day row.id now)) (λ s. refl),
            (playground _ _ (apart (has_demo_tokens day row.id now)) (λ s. refl), tt),
          ),
        ),
      )

  pub charges-used :
      (day key : String) (n now : ℕ) (row : KeyRow C) (s : AuthState)
      → ((row.id == key) ≡ true → row.columns.max_requests_per_day ≡ some (suc n))
      → used day key s ≤ suc n
      → Counts day key row.id (suc n) (used day key s) (within (charges C now day row) s)
  unfolding row_permissions
  charges-used day key n now row s lim below =
      let rpm = enforce_rpm row.id row.columns.max_requests_per_minute now in
      let kept = enforce_rpm-Keeps day key row.id row.columns.max_requests_per_minute now s in
      let daily : Limit =
        (enforce_daily_requests row.id row.columns.max_requests_per_day day, "虚拟密钥日请求额度已用尽") in
      elim (Bool-cases (rpm s).1) [
        | inl ok ↦
            subst (Counts day key row.id (suc n) (used day key s)) (sym (within-pass rpm _ _ s ok))
              (subst
                (λ before.
                  Counts day key row.id (suc n) before
                    (within (daily ∷ later_charges C now day row) (rpm s).0))
                kept
                (counted-within day key row.id row.columns.max_requests_per_day n lim daily.1
                  (later_charges C now day row) (later_charges-Keep day key now row) (rpm s).0
                  (rw kept below)))
        | inr no' ↦
            subst (Counts day key row.id (suc n) (used day key s)) (sym (within-stop rpm _ _ s no'))
              (ground (arith, kept))
      ]
