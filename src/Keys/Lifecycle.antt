-- ===== src/Keys/Lifecycle.antt =====
-- What a key's revocation, rotation and patch mean to the hook, and the permissions' round trip.
use mathlib.Core.Option
use freellm_gateway.Base.{
  ℕ, String, Bool, true, false, Option, none, some, List, map, ◌≡◌, refl, ◌∙◌, inl, inr, arith,
  find-map, Bool-cases, if◌then◌else◌, ◌==◌, eq_string, or_else, ap, subst,
}
use freellm_gateway.Errors.{forbidden}
use freellm_gateway.Keys.{AuthState, KeyPermissions}
use freellm_gateway.Keys.Secret.{bearer, is_virtual_key, is_resolvable}
use freellm_gateway.Keys.Service.{
  Codec, read, over, KeyRow, Columns, row_permissions, permissions_to_columns,
  resolve_by_secret_with_tenancy, change_row, revoked, revoke,
}
use freellm_gateway.Keys.Hook.{refused, authenticate, Request}

-- The newer of two values, where there is one.
abbrev pub later : {A : Type 0} → Option A → Option A → Option A
later none old = old
later (some a) old = some a

module _ (C : Codec) where
  if-some :
      {A : Type 0} (b : Bool) {x y : A}
      → (if b then some x else none) ≡ some y
      → (b ≡ true) × (x ≡ y)
  if-some true e = (refl, cc)
  if-some false e = absurd (cc)

  change_row-own :
      (id : String) (f : KeyRow C → KeyRow C) (r : KeyRow C) → r.id ≡ id → change_row C id f r ≡ f r
  change_row-own id f r own = rw ((eq_string.agree_iff r.id id).1 own) refl

  -- A change of a row that keeps its hash keeps what its secret resolves to.
  resolve-map :
      (table : List (KeyRow C)) (secret : List ℕ) (f : KeyRow C → KeyRow C)
      → ((r : KeyRow C) → (f r).hash ≡ r.hash)
      → resolve_by_secret_with_tenancy C (map f table) secret
        ≡ Option.map f (resolve_by_secret_with_tenancy C table secret)
  unfolding resolve_by_secret_with_tenancy
  resolve-map table secret f same = elim (Bool-cases (is_resolvable secret)) [
    | inl e ↦
        rw e (find-map (λ (r : KeyRow C). r.hash == C.hash secret) f table (λ r. rw (same r) refl))
    | inr e ↦ rw e refl
  ]

  revoked-hash :
      (id : String) (now : ℕ) (r : KeyRow C) → (change_row C id (revoked C now) r).hash ≡ r.hash
  revoked-hash id now r = ground arith

  -- In the table that the revocation of a key leaves, a request that carries a well-formed secret
  -- which resolved to that key is refused as forbidden, at any time, and counts nothing.
  pub revoke-authenticate :
      (table after : List (KeyRow C)) (id : String) (now later : ℕ) (secret : List ℕ)
      (row : KeyRow C) (req : Request) (s : AuthState)
      → bearer req.authorization ≡ some secret
      → is_virtual_key secret ≡ true
      → resolve_by_secret_with_tenancy C table secret ≡ some row
      → row.id ≡ id
      → revoke C id now table ≡ some after
      → authenticate C after later req s ≡ (s, refused forbidden "API 密钥已禁用")
  unfolding authenticate revoke
  revoke-authenticate table after id now later secret row req s carried formed found own e =
      let found' : resolve_by_secret_with_tenancy C after secret ≡ some (revoked C now row) =
        subst (λ t. resolve_by_secret_with_tenancy C t secret ≡ some (revoked C now row))
          (if-some _ e).1
          (resolve-map table secret _ (revoked-hash id now)
            ∙ ap (Option.map (change_row C id (revoked C now))) found
            ∙ ap some (change_row-own id (revoked C now) row own)) in
      rw (carried, formed, found') refl

  -- Permissions written over a row and read back: what the permissions leave out is the row's, the
  -- rest is theirs, and a null limit is a missing one.
  abbrev pub overlay : KeyPermissions → KeyPermissions → KeyPermissions
  overlay perm old = record {
    allowed_models = later perm.allowed_models old.allowed_models;
    denied_models = later perm.denied_models old.denied_models;
    allowed_providers = later perm.allowed_providers old.allowed_providers;
    max_requests_per_minute = later perm.max_requests_per_minute old.max_requests_per_minute;
    max_requests_per_day = later perm.max_requests_per_day old.max_requests_per_day;
    max_tokens_per_day = later perm.max_tokens_per_day old.max_tokens_per_day;
    max_embeddings_per_day = later perm.max_embeddings_per_day old.max_embeddings_per_day;
    max_cost_usd_per_day = later perm.max_cost_usd_per_day old.max_cost_usd_per_day;
    allow_paid_models = perm.allow_paid_models;
    allow_streaming = perm.allow_streaming;
    reasoning_effort = later perm.reasoning_effort old.reasoning_effort;
    allow_reasoning = later perm.allow_reasoning old.allow_reasoning;
  }

  read-over :
      ((xs : List String) → C.parse (C.stringify xs) ≡ some xs)
      → (old : Option C.Json) (new : Option (List String))
      → read C (over C old new) ≡ later new (read C old)
  read-over h old none = refl
  read-over h old (some xs) = h xs

  some-later :
      {A : Type 0} (new : Option A) (old : A) → some (or_else new old) ≡ later new (some old)
  some-later none old = refl
  some-later (some a) old = refl

  -- What the columns give back after permissions were written over them, where a list's stored form
  -- reads as the list: the permissions, and the former ones wherever they leave something out.
  row_permissions-permissions_to_columns :
      ((xs : List String) → C.parse (C.stringify xs) ≡ some xs)
      → (perm : KeyPermissions) (old : Columns C)
      → row_permissions C (permissions_to_columns C perm old) ≡ overlay perm (row_permissions C old)
  unfolding row_permissions permissions_to_columns
  row_permissions-permissions_to_columns h perm old = λ i. record {
    allowed_models = read-over h old.allowed_models_json perm.allowed_models i;
    denied_models = read-over h old.denied_models_json perm.denied_models i;
    allowed_providers = read-over h old.allowed_providers_json perm.allowed_providers i;
    max_requests_per_minute = some-later perm.max_requests_per_minute old.max_requests_per_minute i;
    max_requests_per_day = some-later perm.max_requests_per_day old.max_requests_per_day i;
    max_tokens_per_day = some-later perm.max_tokens_per_day old.max_tokens_per_day i;
    max_embeddings_per_day = some-later perm.max_embeddings_per_day old.max_embeddings_per_day i;
    max_cost_usd_per_day = some-later perm.max_cost_usd_per_day old.max_cost_usd_per_day i;
    allow_paid_models = perm.allow_paid_models;
    allow_streaming = perm.allow_streaming;
    reasoning_effort = some-later perm.reasoning_effort old.reasoning_effort i;
    allow_reasoning = some-later perm.allow_reasoning old.allow_reasoning i;
  }
