-- ===== src/Keys/Refusals.antt =====
-- Why and when the hook refuses, and what it lets through.
use freellm_gateway.Base.{
  ℕ, String, Bool, true, false, not, ◌&&◌, Option, none, some, List, [], ◌∷◌, ◌≡◌, refl, ◌⊎◌, inl,
  inr, arith, is_some, Option-cases, Bool-cases, eq_string, ap,
}
use freellm_gateway.Errors.{ErrorKind, unauthorized, forbidden, rate_limited}
use freellm_gateway.Keys.{AuthState}
use freellm_gateway.Keys.Secret.{bearer, is_virtual_key, after_prefix}
use freellm_gateway.Classify.Regex.{units}
use freellm_gateway.Keys.Service.{Codec, KeyRow, resolve_by_secret_with_tenancy}
use freellm_gateway.Keys.Hook.{
  Checked, refused, passed, resume, ◌>>=◌, pure, within, Limit, charges, Request, Admission,
  admitted, not_guarded, virtual_key, authenticate, on_request, is_expired,
}

pub and-both : {a b : Bool} → (a && b) ≡ true → (a ≡ true) × (b ≡ true)
and-both e = ground arith

not-true : {a : Bool} → not a ≡ true → a ≡ false
not-true e = ground arith

is_some-none : {o : Option ℕ} → not (is_some o) ≡ true → o ≡ none
is_some-none {o = none} e = refl
is_some-none {o = some a} e = cc

-- A limit refuses as a limit.
within-refused :
    (limits : List Limit) (s : AuthState)
    → (k : ErrorKind) (why : String) → (within limits s).1 ≡ refused k why
    → k ≡ rate_limited
unfolding within
within-refused [] s k why e = cc
within-refused ((enforce, text) ∷ limits) s k why e = elim (Bool-cases (enforce s).1) [
  | inl ok ↦ within-refused limits (enforce s).0 k why (rw (ok, within) at e)
  | inr no' ↦ ground (arith, e, no')
]

module _ (C : Codec) where
  -- What is known of a row that passes.
  pub record IsInForce (table : List (KeyRow C)) (now : ℕ) (req : Request) (row : KeyRow C)
      : Type 0 where
    pub secret : List ℕ
    pub carried : bearer req.authorization ≡ some secret
    pub well_formed : is_virtual_key secret ≡ true
    pub found : resolve_by_secret_with_tenancy C table secret ≡ some row
    pub enabled : row.enabled ≡ true
    pub not_revoked : row.revoked_at ≡ none
    pub not_expired : is_expired now row.expires_at ≡ false

  abbrev pub Authentic :
      List (KeyRow C) → ℕ → Request → AuthState → AuthState × Checked (KeyRow C) → Type 0
  Authentic table now req s (s', refused k why) = ((k ≡ unauthorized) ⊎ (k ≡ forbidden)) × (s' ≡ s)
  Authentic table now req s (s', passed row) = IsInForce table now req row × (s' ≡ s)

  authenticate_lem :
      (table : List (KeyRow C)) (now : ℕ) (req : Request) (s : AuthState)
      → Authentic table now req s (authenticate C table now req s)
  unfolding authenticate
  authenticate_lem table now req s = elim (Option-cases (bearer req.authorization)) [
    | inl e ↦ rw e (inl refl, refl)
    | inr (secret, e) ↦ rw e (elim (Bool-cases (is_virtual_key secret)) [
      | inr e1 ↦ rw e1 (inl refl, refl)
      | inl e1 ↦ rw e1 (elim (Option-cases (resolve_by_secret_with_tenancy C table secret)) [
        | inl e2 ↦ rw e2 (inl refl, refl)
        | inr (row, e2) ↦ rw e2 (elim (Bool-cases (row.enabled && not (is_some row.revoked_at))) [
          | inr e3 ↦ rw e3 (inr refl, refl)
          | inl e3 ↦ rw e3 (elim (Bool-cases (not (is_expired now row.expires_at))) [
            | inr e4 ↦ rw e4 (inr refl, refl)
            | inl e4 ↦ rw e4 (
              record {
                secret = secret;
                carried = e;
                well_formed = e1;
                found = e2;
                enabled = (and-both e3).0;
                not_revoked = is_some-none ((and-both e3).1);
                not_expired = not-true e4;
              },
              refl,
            )
          ])
        ])
      ])
    ])
  ]

  -- What the hook leaves after the credentials.
  abbrev pub Settled :
      List (KeyRow C) → ℕ → String → Request → AuthState → AuthState × Checked Admission → Type 0
  Settled table now today req s (s', refused k why) =
      ((k ≡ rate_limited)
        × ((row : KeyRow C) × IsInForce table now req row
            × (within (charges C now today row) s ≡ (s', refused k why))))
      ⊎ (((k ≡ unauthorized) ⊎ (k ≡ forbidden)) × (s' ≡ s))
  Settled table now today req s (s', passed not_guarded) =
      (after_prefix (units "/v1/") (units req.url) ≡ none) × (s' ≡ s)
  Settled table now today req s (s', passed (admitted vk)) =
      (row : KeyRow C) × IsInForce table now req row
      × (vk ≡ virtual_key C row)
      × (within (charges C now today row) s ≡ (s', passed tt))

  charge-Settled :
      (table : List (KeyRow C)) (now : ℕ) (today : String) (req : Request) (row : KeyRow C)
      (s : AuthState)
      → IsInForce table now req row
      → (r : AuthState × Checked (Unit {0})) → within (charges C now today row) s ≡ r
      → Settled table now today req s (resume (λ x. pure (admitted (virtual_key C row))) r)
  charge-Settled table now today req row s ok (s', refused k why) e =
      inl (
        within-refused _ s k why (ap (λ (r : AuthState × Checked (Unit {0})). r.1) e),
        (row, ok, e),
      )
  charge-Settled table now today req row s ok (s', passed a) e = (row, ok, refl, e)

  resume-Settled :
      (table : List (KeyRow C)) (now : ℕ) (today : String) (req : Request) (s : AuthState)
      (r : AuthState × Checked (KeyRow C))
      → Authentic table now req s r
      → Settled table now today req s (
          resume
            (λ row. within (charges C now today row) >>= λ x. pure (admitted (virtual_key C row)))
            r)
  resume-Settled table now today req s (s', refused k why) ok = inr ok
  resume-Settled table now today req s (s', passed row) (ok, same) =
      rw same
        (charge-Settled table now today req row s ok (within (charges C now today row) s) refl)

  -- The hook on any request: a refusal is either rate limiting, and then a row in force has
  -- been charged and one of its limits refuses, or it is for the credentials (unauthorized or
  -- forbidden), and then no counter has changed; a request is left alone, with
  -- the counters, only where its URL does not start with /v1/; and an admitted request carries a well-formed secret whose hash
  -- is that of an enabled, unrevoked, unexpired row, has passed all limits of that row, and gets the
  -- row's identity and permissions.
  pub on_request-Settled :
      (table : List (KeyRow C)) (now : ℕ) (today : String) (req : Request) (s : AuthState)
      → Settled table now today req s (on_request C table now today req s)
  unfolding on_request
  on_request-Settled table now today req s =
      elim (Option-cases (after_prefix (units "/v1/") (units req.url))) [
        | inl e ↦ rw e (e, refl)
        | inr (rest, e) ↦ rw e (
            resume-Settled table now today req s (authenticate C table now req s)
              (authenticate_lem table now req s))
      ]
