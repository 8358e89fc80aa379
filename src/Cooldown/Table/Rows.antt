-- ===== src/Cooldown/Table/Rows.antt =====
-- What the writes of the store leave of the rows of the table of cooldowns.
use mathlib.Core.Option
use freellm_gateway.Base.{
  ◌≤◌, ℕ, String, true, false, none, some, List, [], ◌∷◌, ◌++◌, ◌≡◌, refl, sym, ap, ◌∙◌, inl, inr,
  ◌==◌, ==-refl, eq_string, filter, find, length, All, All-append, IsIn, arith, Bool-cases,
  Option-cases, map, append_nil,
}
use freellm_gateway.Cooldown.{Scope, model, provider, scope_eq, CooldownInput, CooldownRecord}
use freellm_gateway.Cooldown.Contract.{Elsewhere}
use freellm_gateway.Cooldown.PrismaStore.{
  Row, matches, map_row, latest, update_where, find_active, created, filter-update_where,
  matches-eq,
}
use freellm_gateway.Cooldown.Table.{
  Distinct, IsTable, string_ne, same_id, matches-Elsewhere, filter-update_where_other,
  some_injective, update_where-Distinct, filter-snoc, find-none, latest-All, filter-passes,
}

pub length-map : (g : Row → Row) (rows : List Row) → length (map g rows) ≡ length rows
length-map g [] = refl
length-map g (r ∷ rows) = omega (arith, length-map g rows)

pub string_ne_sym : (a b : String) → (a == b) ≡ false → (b == a) ≡ false
string_ne_sym a b h = elim (Bool-cases (b == a)) [
  | inl same ↦ absurd (string_ne a b h (sym ((eq_string.agree_iff b a).0 same)))
  | inr other ↦ other
]

pub Distinct-snoc :
    (rows : List Row) (n : Row)
    → Distinct rows
    → All (λ (r : Row). (r.id == n.id) ≡ false) rows
    → Distinct (rows ++ n ∷ [])
Distinct-snoc [] n d h = (tt, tt)
Distinct-snoc (r ∷ rows) n d h = (
  All-append (λ (q : Row). (q.id == r.id) ≡ false) rows (n ∷ []) d.0
      (string_ne_sym r.id n.id h.0, tt),
  Distinct-snoc rows n d.1 h.1,
)

-- The row that is found under a key.
pub found_row :
    (scope : Scope) (key : String) (rows : List Row) (x : CooldownRecord)
    → find_active scope key rows ≡ some x
    → (r : Row) × IsIn r rows × (matches scope key r ≡ true) × (map_row r ≡ x)
unfolding find_active
found_row scope key rows x e = elim (Option-cases (latest (filter (matches scope key) rows))) [
  | inl n ↦ absurd (cc)
  | inr (r, m) ↦
      let (there, own) =
        latest-All (λ q. IsIn q rows × (matches scope key q ≡ true)) _
          (filter-passes (λ q. IsIn q rows) (matches scope key) rows (λ q i. i)) m in
      (r, there, own, some_injective (rw m at e))
]

pub update-IsTable :
    (id : String) (change : Row → Row) (rows : List Row)
    → ((r : Row) → (change r).id ≡ r.id)
    → ((scope : Scope) (key : String) (r : Row)
        → matches scope key (change r) ≡ matches scope key r)
    → IsTable rows
    → IsTable (update_where id change rows)
update-IsTable id change rows same keeps h = record {
  ids = update_where-Distinct id change rows same h.ids;
  single = λ scope key.
      rw
        (
          filter-update_where scope key id change (keeps scope key) rows,
          length-map _ (filter (matches scope key) rows),
        )
        (h.single scope key);
}

pub created-matches :
    (id : String) (now : ℕ) (c : CooldownInput) (scope : Scope)
    → c.scope ≡ scope
    → matches scope c.key (created id now c) ≡ true
unfolding matches
created-matches id now c model e = rw (e, ==-refl c.key) refl
created-matches id now c provider e = rw (e, ==-refl c.key) refl

pub created-IsTable :
    (id : String) (now : ℕ) (c : CooldownInput) (rows : List Row)
    → All (λ (r : Row). (r.id == id) ≡ false) rows
    → find (matches c.scope c.key) rows ≡ none
    → IsTable rows
    → IsTable (rows ++ created id now c ∷ [])
created-IsTable id now c rows fresh e h = record {
  ids = Distinct-snoc rows (created id now c) h.ids fresh;
  single = λ scope key. elim (Bool-cases (matches scope key (created id now c))) [
    | inr other ↦
        rw
          (
            filter-snoc (matches scope key) rows (created id now c),
            other,
            append_nil (filter (matches scope key) rows),
          )
          (h.single scope key)
    | inl own ↦
        let (s, k) = matches-eq scope key (created id now c) own in
        let (s', k') =
          matches-eq c.scope c.key (created id now c) (created-matches id now c c.scope refl) in
        let none_there : filter (matches scope key) rows ≡ [] =
          rw (← sym k' ∙ k, ← s) (find-none (matches c.scope c.key) rows e) in
        rw (filter-snoc (matches scope key) rows (created id now c), own, none_there) (omega arith)
  ];
}

-- A change of the row of one key leaves what is found under another.
pub find-update_ne :
    (scope : Scope) (key : String) (scope' : Scope) (key' : String) (change : Row → Row) (r : Row)
    (rows : List Row)
    → ((q : Row) → matches scope' key' (change q) ≡ matches scope' key' q)
    → Distinct rows
    → IsIn r rows
    → matches scope key r ≡ true
    → Elsewhere scope key scope' key'
    → find_active scope' key' (update_where r.id change rows) ≡ find_active scope' key' rows
unfolding find_active
find-update_ne scope key scope' key' change r rows keeps d there own far =
    ap (λ rs. Option.map map_row (latest rs))
      (filter-update_where_other (matches scope' key') r.id change rows keeps (
        same_id (λ (q : Row). matches scope' key' q ≡ false) r rows d there
          (matches-Elsewhere scope key scope' key' r far own)))

pub latest-single :
    (rows : List Row) (r : Row) → length rows ≤ 1 → latest rows ≡ some r → rows ≡ r ∷ []
latest-single [] r h e = absurd (cc)
latest-single (q ∷ []) r h e = ap (λ (x : Row). x ∷ []) (some_injective e)
latest-single (q ∷ p ∷ rows) r h e = absurd (omega (arith, h))
