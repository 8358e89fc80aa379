-- ===== src/Cooldown/Memory.antt =====
-- `MemoryCooldownStore` of packages/routing-core/src/cooldown.ts, and that it keeps the contract.
use Prim.Native.String.{◌++◌, ◌∷◌}
use Prim.Native.Char.{Char, code}
use text.Mathlib.TextLemmas.{append_cancel_left, cons-append, head-eq_of_cons-eq}
use freellm_gateway.Base.{
  ℕ, String, Bool, false, not, ◌&&◌, Option, none, some, List, ◌≡◌, refl, sym, ◌∙◌, ap, ◌≢◌, inl,
  inr, leb, ◌==◌, eq_string, or_else, map, filter, All, arith, Bool-cases, length, Option-cases,
}
use freellm_gateway.Base.Dict.{
  lookup, insert, delete, lookup-insert_self, lookup-insert_ne, lookup-delete_self,
  lookup-delete_ne, lookup-All, insert-All, delete-All,
}
use mathlib.Core.Option
use freellm_gateway.Cooldown.{
  Scope, model, provider, scope_name, scope_eq, CooldownInput, CooldownRecord, CooldownStore,
  EngineOptions, record_id,
}
use freellm_gateway.Cooldown.Machine.{gate_of, forgotten, Leaves}
use freellm_gateway.Cooldown.Contract.{Elsewhere, Carries, Lawful, Forgets, id_for}

abbrev pub Records : Type 0
Records = List (String × CooldownRecord)

unfoldable pub list : Option Scope → Records → List CooldownRecord
list none m = map (λ b. b.1) m
list (some scope) m = filter (λ r. r.scope == scope) (map (λ b. b.1) m)

unfoldable pub find_active : Scope → String → Records → Option CooldownRecord
find_active scope key m = lookup (record_id scope key) m

unfoldable pub upsert : ℕ → CooldownInput → Records → Records × CooldownRecord
upsert now r m = (insert r.id full m, full)
  where
    full : CooldownRecord
    full = record {
      input = r;
      created_at = or_else (Option.map (λ x. x.created_at) (lookup r.id m)) now;
    }

unfoldable pub reset : String → Records → Records
reset id m = delete id m

-- The loop of `clearExpired`: it deletes what has expired and is not half-open, and counts it.
unfoldable pub clear_expired : ℕ → Records → Records × ℕ
clear_expired now m = (filter (λ b. not (gone b.1)) m, length (filter (λ b. gone b.1) m))
  where
    gone : CooldownRecord → Bool
    gone r = leb r.expires_at now && not r.half_open

abbrev pub memory_store : CooldownStore Records
memory_store = record {
  list = list;
  find_active = find_active;
  upsert = upsert;
  reset = λ now id m. reset id m;
  clear_expired = clear_expired;
}

-- Each record stands under the id of its own scope and key.
abbrev pub Filed : Records → Type 0
Filed = All (λ b. (b.0 ≡ b.1.id) × (b.0 ≡ record_id b.1.scope b.1.key))

first_letter : (c d : Char) (s t x y : String) → code c ≢ code d → (c ∷ s) ++ x ≡ (d ∷ t) ++ y → ⊥
first_letter c d s t x y n e =
    n (ap code (head-eq_of_cons-eq (sym (cons-append c s x) ∙ e ∙ cons-append d t y)))

-- Two records have one id only if they have one scope and one key.
pub record_id-injective :
    (scope scope' : Scope) (key key' : String)
    → record_id scope key ≡ record_id scope' key'
    → (scope ≡ scope') × (key ≡ key')
unfolding record_id
record_id-injective scope scope' key key' h = names scope scope' (append_cancel_left "cd-" _ _ h)
  where
    names :
        (a b : Scope)
        → scope_name a ++ ("-" ++ key) ≡ scope_name b ++ ("-" ++ key')
        → (a ≡ b) × (key ≡ key')
    names model model e = (refl, append_cancel_left "-" _ _ (append_cancel_left "model" _ _ e))
    names provider provider e =
        (refl, append_cancel_left "-" _ _ (append_cancel_left "provider" _ _ e))
    names model provider e = absurd (first_letter "m" "p" "odel" "rovider" _ _ (omega arith) e)
    names provider model e = absurd (first_letter "p" "m" "rovider" "odel" _ _ (omega arith) e)

record_id_ne :
    (scope scope' : Scope) (key key' : String)
    → Elsewhere scope key scope' key'
    → (record_id scope key == record_id scope' key') ≡ false
record_id_ne scope scope' key key' far =
    elim (Bool-cases (record_id scope key == record_id scope' key')) [
      | inl same ↦
          absurd (
            apart far
              (record_id-injective scope scope' key key' ((eq_string.agree_iff _ _).0 same)))
      | inr other ↦ other
    ]
  where
    apart : Elsewhere scope key scope' key' → (scope ≡ scope') × (key ≡ key') → ⊥
    apart (inl n) e = n e.0
    apart (inr n) e = n e.1

find_active-found :
    (scope : Scope) (key : String) (m : Records) (x : CooldownRecord)
    → Filed m
    → find_active scope key m ≡ some x
    → (x.id ≡ record_id scope key) × (x.scope ≡ scope) × (x.key ≡ key)
unfolding find_active
find_active-found scope key m x h e =
    let (own, filed) = lookup-All (λ i r. (i ≡ r.id) × (i ≡ record_id r.scope r.key)) _ x m h e in
    let (s, k) = record_id-injective scope x.scope key x.key filed in (sym own, sym s, sym k)

written_id :
    (r : CooldownInput) (m : Records)
    → Filed m
    → Carries memory_store m r
    → r.id ≡ record_id r.scope r.key
written_id r m h c = elim (Option-cases (find_active r.scope r.key m)) [
  | inl e ↦ c ∙ ap (id_for r.scope r.key) e
  | inr (x, e) ↦ c ∙ ap (id_for r.scope r.key) e ∙ (find_active-found r.scope r.key m x h e).0
]

-- The in-memory store keeps the contract.
pub memory-Lawful : Lawful memory_store Filed
unfolding find_active upsert reset
memory-Lawful = record {
  found = λ scope key m x h e. let (_, s, k) = find_active-found scope key m x h e in (s, k);
  upsert-Inv = λ now r m h c.
      insert-All (λ i x. (i ≡ x.id) × (i ≡ record_id x.scope x.key)) r.id _ m h
        (refl, written_id r m h c);
  find-upsert = λ now r m h c. (
    _,
    lookup-insert_self r.id _ _ m (written_id r m h c),
    record {
      scope = refl;
      key = refl;
      reason = refl;
      attempts = refl;
      backoff_ms = refl;
      expires_at = refl;
      half_open = refl;
    },
  );
  find-upsert_ne = λ now r m scope key h c far.
      lookup-insert_ne r.id _ _ m
        (rw (written_id r m h c) (record_id_ne r.scope scope r.key key far));
  reset-Inv = λ now scope key m x h e.
      delete-All (λ i x. (i ≡ x.id) × (i ≡ record_id x.scope x.key)) x.id m h;
  find-reset_ne = λ now scope key m x scope' key' h e far.
      lookup-delete_ne x.id _ m
        (rw (find_active-found scope key m x h e).0 (record_id_ne scope scope' key key' far));
}

pub memory-Forgets : Forgets memory_store Filed
unfolding find_active reset
memory-Forgets now scope key m x h e =
    lookup-delete_self x.id _ m (find_active-found scope key m x h e).0

pub memory-Leaves : (opts : EngineOptions) → Leaves memory_store opts Filed forgotten
memory-Leaves opts now scope key m x h e = ap gate_of (memory-Forgets now scope key m x h e)
