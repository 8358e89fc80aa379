-- ===== src/Keys/Hook.antt =====
-- The `onRequest` hook of apps/api/src/plugins/virtual-key-auth.ts. Every check refuses by throwing a
-- `FreeLLMError`; a check that counts has counted by then. The hook's readings of the clock are taken as
-- one time.
use freellm_gateway.Base.{
  ℕ, String, Bool, true, false, not, ◌&&◌, Option, none, some, List, [], ◌∷◌, leb, ltb,
  if◌then◌else◌, or_else, is_some, ◌==◌, eq_string,
}
use freellm_gateway.Errors.{ErrorKind, unauthorized, forbidden, rate_limited}
use freellm_gateway.Limits.{
  get, used_tokens, token_key, enforce_org_rpm_async, enforce_demo_daily_requests, Store,
}
use freellm_gateway.Keys.{
  KeyPermissions, AuthState, enforce_rpm, enforce_daily_requests, enforce_daily_tokens,
}
use freellm_gateway.Keys.Secret.{after_prefix, bearer, is_virtual_key}
use freellm_gateway.Keys.Service.{
  Codec, KeyRow, Tenant, row_permissions, resolve_by_secret_with_tenancy,
}
use freellm_gateway.Classify.Regex.{units}

pub data Checked (A : Type 0) : Type 0 where
  refused : ErrorKind → String → Checked A
  passed : A → Checked A

-- A step of the hook: it may change the counters, and may refuse.
abbrev pub M : Type 0 → Type 0
M A = AuthState → AuthState × Checked A

-- What a step leaves, taken on by the next one.
abbrev pub resume : {A B : Type 0} → (A → M B) → AuthState × Checked A → AuthState × Checked B
resume f (s, refused k why) = (s, refused k why)
resume f (s, passed a) = f a s

infixl 5 ◌>>=◌ ◌>>◌
abbrev pub ◌>>=◌ : {A B : Type 0} → M A → (A → M B) → M B
◌>>=◌ m f s = resume f (m s)

abbrev pub ◌>>◌ : {B : Type 0} → M (Unit {0}) → M B → M B
m >> k = m >>= λ _. k

abbrev pub pure : {A : Type 0} → A → M A
pure a s = (s, passed a)

abbrev pub ensure : Bool → ErrorKind → String → M (Unit {0})
ensure ok kind why s = (s, if ok then passed tt else refused kind why)

abbrev pub present : {A : Type 0} → Option A → ErrorKind → String → M A
present none kind why s = (s, refused kind why)
present (some a) kind why s = (s, passed a)

-- Limits in their order, each `if (!enforce…(…)) throw` with the text it throws.
abbrev pub Limit : Type 0
Limit = (AuthState → AuthState × Bool) × String

unfoldable pub within : List Limit → M (Unit {0})
within [] s = (s, passed tt)
within ((enforce, why) ∷ limits) s = elim (enforce s).1 [
  | true ↦ within limits (enforce s).0
  | false ↦ ((enforce s).0, refused rate_limited why)
]

-- A limit that counts in the key-value store.
abbrev pub in_store : (Store → Store × Bool) → AuthState → AuthState × Bool
in_store enforce s = let (kv, ok) = enforce s.kv in (record s { kv = kv }, ok)

abbrev pub demo_daily_token_limit : ℕ
demo_daily_token_limit = 1000

-- `(await peekDemoDailyTokens(id)) > 0`, or NaN.
unfoldable pub has_demo_tokens : String → String → ℕ → Store → Store × Bool
has_demo_tokens today key_id now s =
    let (s', raw) = get (token_key today key_id) now s in
    (s', elim (used_tokens raw) [ none ↦ true | some used ↦ ltb used demo_daily_token_limit ])

-- `req.virtualKey`
pub record VirtualKey : Type 0 where
  pub id : String
  pub label : String
  pub environment : String
  pub permissions : KeyPermissions
  pub is_demo : Bool
  pub project_id : Option String
  pub organization_id : Option String

pub data Admission : Type 0 where
  not_guarded : Admission
  admitted : VirtualKey → Admission

pub record Request : Type 0 where
  pub url : String
  pub authorization : Option String

abbrev pub is_expired : ℕ → Option ℕ → Bool
is_expired now none = false
is_expired now (some e) = leb e now

module _ (C : Codec) where
  abbrev pub organization_of : Option (Tenant C) → Option String
  organization_of none = none
  organization_of (some p) = p.organization_id

  abbrev pub rpm_limit_of : Option (Tenant C) → Option ℕ
  rpm_limit_of none = none
  rpm_limit_of (some p) = p.rpm_limit

  abbrev pub project_of : Option (Tenant C) → Option String
  project_of none = none
  project_of (some p) = some p.project_id

  -- Up to the counters: who calls, and whether the key is in force.
  unfoldable pub authenticate : List (KeyRow C) → ℕ → Request → M (KeyRow C)
  authenticate table now req = do
    secret ← present (bearer req.authorization) unauthorized "缺少 Bearer 令牌"
    ensure (is_virtual_key secret) unauthorized "API 密钥无效"
    row ← present (resolve_by_secret_with_tenancy C table secret) unauthorized "API 密钥无效"
    ensure (row.enabled && not (is_some row.revoked_at)) forbidden "API 密钥已禁用"
    ensure (not (is_expired now row.expires_at)) forbidden "API 密钥已过期"
    pure row

  -- The limits behind the two that every key counts.
  abbrev pub later_charges : ℕ → String → KeyRow C → List Limit
  later_charges now today row =
      (
        λ s. (
          s,
          enforce_daily_tokens row.id
              (or_else (row_permissions C row.columns).max_tokens_per_day none) today s,
        ),
        "虚拟密钥日 Token 额度已用尽",
      )
      ∷ (
        λ s.
            if or_else (organization_of row.project) "" == ""
            then (s, true)
            else in_store
                (enforce_org_rpm_async (organization_of row.project) (rpm_limit_of row.project) now)
                s,
        "组织 RPM 超限",
      )
      ∷ (
        λ s.
            if row.is_demo
            then in_store (enforce_demo_daily_requests today row.id now) s
            else (s, true),
        "Playground 试用额度已用尽，请稍后再来或注册管理员账号申请密钥",
      )
      ∷ (
        λ s. if row.is_demo then in_store (has_demo_tokens today row.id now) s else (s, true),
        "Playground 试用 Token 额度已用尽",
      )
      ∷ []

  abbrev pub charges : ℕ → String → KeyRow C → List Limit
  charges now today row =
      let perm = row_permissions C row.columns in
      (enforce_rpm row.id (or_else perm.max_requests_per_minute none) now, "虚拟密钥 RPM 超限")
      ∷ (
        enforce_daily_requests row.id (or_else perm.max_requests_per_day none) today,
        "虚拟密钥日请求额度已用尽",
      )
      ∷ later_charges now today row

  abbrev pub virtual_key : KeyRow C → VirtualKey
  virtual_key row = record {
    id = row.id;
    label = row.label;
    environment = row.environment;
    permissions = row_permissions C row.columns;
    is_demo = row.is_demo;
    project_id = project_of row.project;
    organization_id = organization_of row.project;
  }

  unfoldable pub on_request : List (KeyRow C) → ℕ → String → Request → M Admission
  unfolding units
  on_request table now today req s =
      if is_some (after_prefix (units "/v1/") (units req.url))
      then (do
        row ← authenticate table now req
        within (charges now today row)
        pure (admitted (virtual_key row)))
          s
      else (s, passed not_guarded)
