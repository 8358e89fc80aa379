-- ===== src/Keys/Service.antt =====
-- apps/api/src/services/virtual-key.service.ts: the table of keys. The parameters are the hash of a
-- secret, the stored form of a list of names, with what writes and what reads it (`JSON.stringify`,
-- and `JSON.parse` with its check), and the digest that a prefix shows. New secrets, ids and times
-- are arguments.
use freellm_gateway.Base.{
  ℕ, ◌+◌, String, Bool, true, false, Option, none, some, List, ◌∷◌, map, find, ◌==◌, eq_string,
  if◌then◌else◌, or_else, is_some,
}
use freellm_gateway.Keys.{KeyPermissions}
use freellm_gateway.Keys.Secret.{is_resolvable}

pub record Codec : Type 1 where
  pub Json : Type 0
  pub stringify : List String → Json
  pub parse : Json → Option (List String)
  pub hash : List ℕ → String
  pub shown : List ℕ → String

module _ (C : Codec) where
  open C use {Json}

  -- `permissionsToColumns`: the columns of the permissions.
  pub record Columns : Type 0 where
    pub allowed_models_json : Option Json
    pub denied_models_json : Option Json
    pub allowed_providers_json : Option Json
    pub max_requests_per_minute : Option ℕ
    pub max_requests_per_day : Option ℕ
    pub max_tokens_per_day : Option ℕ
    pub max_embeddings_per_day : Option ℕ
    pub max_cost_usd_per_day : Option ℕ
    pub allow_paid_models : Bool
    pub allow_streaming : Bool
    pub reasoning_effort : String
    pub allow_reasoning : Bool

  pub record Tenant : Type 0 where
    pub project_id : String
    pub organization_id : Option String
    pub rpm_limit : Option ℕ

  pub record KeyRow : Type 0 where
    pub id : String
    pub hash : String
    pub prefix : String
    pub label : String
    pub environment : String
    pub enabled : Bool
    pub is_demo : Bool
    pub expires_at : Option ℕ
    pub revoked_at : Option ℕ
    pub last_used_at : Option ℕ
    pub last_used_ip : Option String
    pub total_requests : ℕ
    pub total_tokens : ℕ
    pub project : Option Tenant
    pub columns : Columns

  -- What is absent from the permissions leaves its column alone.
  abbrev pub over : Option Json → Option (List String) → Option Json
  over old none = old
  over old (some xs) = some (C.stringify xs)

  unfoldable pub permissions_to_columns : KeyPermissions → Columns → Columns
  permissions_to_columns perm old = record {
    allowed_models_json = over old.allowed_models_json perm.allowed_models;
    denied_models_json = over old.denied_models_json perm.denied_models;
    allowed_providers_json = over old.allowed_providers_json perm.allowed_providers;
    max_requests_per_minute = or_else perm.max_requests_per_minute old.max_requests_per_minute;
    max_requests_per_day = or_else perm.max_requests_per_day old.max_requests_per_day;
    max_tokens_per_day = or_else perm.max_tokens_per_day old.max_tokens_per_day;
    max_embeddings_per_day = or_else perm.max_embeddings_per_day old.max_embeddings_per_day;
    max_cost_usd_per_day = or_else perm.max_cost_usd_per_day old.max_cost_usd_per_day;
    allow_paid_models = perm.allow_paid_models;
    allow_streaming = perm.allow_streaming;
    reasoning_effort = or_else perm.reasoning_effort old.reasoning_effort;
    allow_reasoning = or_else perm.allow_reasoning old.allow_reasoning;
  }

  abbrev pub read : Option Json → Option (List String)
  read none = none
  read (some raw) = C.parse raw

  unfoldable pub row_permissions : Columns → KeyPermissions
  row_permissions row = record {
    allowed_models = read row.allowed_models_json;
    denied_models = read row.denied_models_json;
    allowed_providers = read row.allowed_providers_json;
    max_requests_per_minute = some row.max_requests_per_minute;
    max_requests_per_day = some row.max_requests_per_day;
    max_tokens_per_day = some row.max_tokens_per_day;
    max_embeddings_per_day = some row.max_embeddings_per_day;
    max_cost_usd_per_day = some row.max_cost_usd_per_day;
    allow_paid_models = row.allow_paid_models;
    allow_streaming = row.allow_streaming;
    reasoning_effort = some row.reasoning_effort;
    allow_reasoning = some row.allow_reasoning;
  }

  abbrev pub empty_columns : Columns
  empty_columns = record {
    allowed_models_json = none;
    denied_models_json = none;
    allowed_providers_json = none;
    max_requests_per_minute = none;
    max_requests_per_day = none;
    max_tokens_per_day = none;
    max_embeddings_per_day = none;
    max_cost_usd_per_day = none;
    allow_paid_models = false;
    allow_streaming = true;
    reasoning_effort = "none";
    allow_reasoning = true;
  }

  pub record CreateVirtualKeyInput : Type 0 where
    pub label : String
    pub environment : Option String
    pub permissions : KeyPermissions
    pub expires_at : Option ℕ
    pub project : Option Tenant

  -- The new row, in front of the table; `secret` carries the 64 random digits.
  unfoldable pub create : String → List ℕ → CreateVirtualKeyInput → List KeyRow → List KeyRow
  create id secret input table =
      record {
        id = id;
        hash = C.hash secret;
        prefix = C.shown secret;
        label = input.label;
        environment = or_else input.environment "live";
        enabled = true;
        is_demo = false;
        expires_at = input.expires_at;
        revoked_at = none;
        last_used_at = none;
        last_used_ip = none;
        total_requests = 0;
        total_tokens = 0;
        project = input.project;
        columns = permissions_to_columns input.permissions empty_columns;
      }
      ∷ table

  unfoldable pub resolve_by_secret_with_tenancy : List KeyRow → List ℕ → Option KeyRow
  resolve_by_secret_with_tenancy table secret =
      let found = find (λ (r : KeyRow). r.hash == C.hash secret) table in
      if is_resolvable secret then found else none

  abbrev pub change_row : String → (KeyRow → KeyRow) → KeyRow → KeyRow
  change_row id change r = if r.id == id then change r else r

  -- `prisma.virtualKey.update({ where: { id } })`, which throws where no row has the id.
  abbrev pub update_row : String → (KeyRow → KeyRow) → List KeyRow → Option (List KeyRow)
  update_row id change table =
      if is_some (find (λ (r : KeyRow). r.id == id) table)
      then some (map (change_row id change) table)
      else none

  pub record KeyPatch : Type 0 where
    pub label : Option String
    pub enabled : Option Bool
    pub expires_at : Option (Option ℕ)
    pub permissions : Option KeyPermissions

  unfoldable pub patch : String → KeyPatch → List KeyRow → Option (List KeyRow)
  patch id p = update_row id (λ r. record r {
    label = or_else p.label r.label;
    enabled = or_else p.enabled r.enabled;
    expires_at = or_else p.expires_at r.expires_at;
    columns = elim p.permissions [
      | none ↦ r.columns
      | some perm ↦ permissions_to_columns perm r.columns
    ];
  })

  abbrev pub revoked : ℕ → KeyRow → KeyRow
  revoked now r = record r { enabled = false; revoked_at = some now }

  unfoldable pub revoke : String → ℕ → List KeyRow → Option (List KeyRow)
  revoke id now = update_row id (revoked now)

  abbrev pub rotated : List ℕ → KeyRow → KeyRow
  rotated secret r = record r {
    hash = C.hash secret;
    prefix = C.shown secret;
    revoked_at = none;
    enabled = true;
  }

  unfoldable pub rotate : String → List ℕ → List KeyRow → Option (List KeyRow)
  rotate id secret = update_row id (rotated secret)

  unfoldable pub touch_usage : String → ℕ → Option String → ℕ → List KeyRow → Option (List KeyRow)
  touch_usage id now ip tokens = update_row id (λ r. record r {
    last_used_at = some now;
    last_used_ip = ip;
    total_requests = r.total_requests + 1;
    total_tokens = r.total_tokens + tokens;
  })
