-- ===== src/Cooldown/Contract.antt =====
-- What the engine relies on in a cooldown store: a record is found under the scope and key that it
-- was written for, and neither a write nor a reset touches another scope or key.
use freellm_gateway.Base.{ℕ, String, Option, none, some, ◌≡◌, ◌≢◌, ◌⊎◌}
use freellm_gateway.Cooldown.{Scope, CooldownInput, CooldownRecord, CooldownStore, record_id}

abbrev pub Elsewhere : Scope → String → Scope → String → Type 0
Elsewhere scope key scope' key' = (scope ≢ scope') ⊎ (key ≢ key')

-- The stored record has the content that was written; the store may give it an id of its own.
pub record Shows (r : CooldownInput) (x : CooldownRecord) : Type 0 where
  pub scope : x.scope ≡ r.scope
  pub key : x.key ≡ r.key
  pub reason : x.reason ≡ r.reason
  pub attempts : x.attempts ≡ r.attempts
  pub backoff_ms : x.backoff_ms ≡ r.backoff_ms
  pub expires_at : x.expires_at ≡ r.expires_at
  pub half_open : x.half_open ≡ r.half_open

abbrev pub id_for : Scope → String → Option CooldownRecord → String
id_for scope key existing = elim existing [ none ↦ record_id scope key | some x ↦ x.id ]

module _ {S : Type 0} (store : CooldownStore S) where
  -- A write takes over the id of the record that it replaces.
  abbrev pub Carries : S → CooldownInput → Type 0
  Carries s r = r.id ≡ id_for r.scope r.key (store.find_active r.scope r.key s)

  pub record Lawful (Inv : S → Type 0) : Type 0 where
    pub found :
        (scope : Scope) (key : String) (s : S) (x : CooldownRecord)
        → Inv s
        → store.find_active scope key s ≡ some x
        → (x.scope ≡ scope) × (x.key ≡ key)
    pub upsert-Inv :
        (now : ℕ) (r : CooldownInput) (s : S) → Inv s → Carries s r → Inv (store.upsert now r s).0
    pub find-upsert :
        (now : ℕ) (r : CooldownInput) (s : S)
        → Inv s
        → Carries s r
        → (x : CooldownRecord) × (store.find_active r.scope r.key (store.upsert now r s).0 ≡ some x)
          × Shows r x
    pub find-upsert_ne :
        (now : ℕ) (r : CooldownInput) (s : S) (scope : Scope) (key : String)
        → Inv s
        → Carries s r
        → Elsewhere r.scope r.key scope key
        → store.find_active scope key (store.upsert now r s).0 ≡ store.find_active scope key s
    pub reset-Inv :
        (now : ℕ) (scope : Scope) (key : String) (s : S) (x : CooldownRecord)
        → Inv s
        → store.find_active scope key s ≡ some x
        → Inv (store.reset now x.id s)
    pub find-reset_ne :
        (now : ℕ) (scope : Scope) (key : String) (s : S) (x : CooldownRecord) (scope' : Scope)
        (key' : String)
        → Inv s
        → store.find_active scope key s ≡ some x
        → Elsewhere scope key scope' key'
        → store.find_active scope' key' (store.reset now x.id s) ≡ store.find_active scope' key' s

  -- A reset forgets the record.
  abbrev pub Forgets : (S → Type 0) → Type 0
  Forgets Inv =
      (now : ℕ) (scope : Scope) (key : String) (s : S) (x : CooldownRecord)
      → Inv s
      → store.find_active scope key s ≡ some x
      → store.find_active scope key (store.reset now x.id s) ≡ none
