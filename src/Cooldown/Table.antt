-- ===== src/Cooldown/Table.antt =====
-- apps/api/src/services/prisma-cooldown-store.ts: the invariant of the table of cooldowns, and lemmas
-- on its rows. Rows has what the writes leave, Kept the contract.
pub mod Rows
pub mod Kept
use mathlib.Core.Option
use mathlib.Core.Bool.{and-eq-true_iff}
use freellm_gateway.Base.{
  ℕ, suc, ◌+◌, ◌≤◌, String, Bool, true, false, ◌&&◌, Option, none, some, List, [], ◌∷◌, ◌++◌, ◌≡◌,
  ◌≢◌, refl, sym, ap, ◌∙◌, ◌⊎◌, inl, inr, if◌then◌else◌, ◌==◌, eq_string, filter, find, length, All,
  All-IsIn, IsIn, subst, arith, Bool-cases, Option-cases, true≢false, filter-head, map, if_elim,
  ltb,
}
use freellm_gateway.Cooldown.{Scope, model, provider, scope_eq, CooldownInput, CooldownRecord}
use freellm_gateway.Cooldown.Contract.{Elsewhere, Carries, Lawful}
use freellm_gateway.Cooldown.PrismaStore.{
  Row, matches, row_key, map_row, latest, update_where, find_active, rewritten, created, upsert,
  resolved, reset, prisma_store, filter-update_where, matches-eq, matches-rewritten,
  matches-resolved,
}

abbrev pub Distinct : List Row → Type 0
Distinct [] = Unit
Distinct (r ∷ rs) = All (λ (q : Row). (q.id == r.id) ≡ false) rs × Distinct rs

-- The ids are a key of the table, and there is at most one row for each key of the cooldowns.
pub record IsTable (rows : List Row) : Type 0 where
  pub ids : Distinct rows
  pub single : (scope : Scope) (key : String) → length (filter (matches scope key) rows) ≤ 1

pub string_ne : (a b : String) → (a == b) ≡ false → a ≢ b
string_ne a b h e = true≢false (sym ((eq_string.agree_iff a b).1 e) ∙ h)

-- What holds of a row of the table holds of every row with its id.
pub same_id :
    (P : Row → Type 0) (e : Row) (rows : List Row)
    → Distinct rows
    → IsIn e rows
    → P e
    → All (λ (r : Row). (r.id == e.id) ≡ true → P r) rows
same_id P e [] d i h = tt
same_id P e (r ∷ rs) d (inl own) h = (λ _. subst P (sym own) h, others rs d.0)
  where
    others :
        (qs : List Row)
        → All (λ (q : Row). (q.id == r.id) ≡ false) qs
        → All (λ (q : Row). (q.id == e.id) ≡ true → P q) qs
    others [] k = tt
    others (q ∷ qs) k = (
      λ same. absurd (
          string_ne q.id r.id k.0
            ((eq_string.agree_iff q.id e.id).0 same ∙ sym (ap (λ (x : Row). x.id) own))),
      others qs k.1,
    )
same_id P e (r ∷ rs) d (inr i) h = (
  λ same. absurd (
      string_ne e.id r.id (All-IsIn (λ (q : Row). (q.id == r.id) ≡ false) e rs d.0 i)
        (sym ((eq_string.agree_iff r.id e.id).0 same))),
  same_id P e rs d.1 i h,
)

-- Of two keys a row has at most one.
pub matches-Elsewhere :
    (scope : Scope) (key : String) (scope' : Scope) (key' : String) (r : Row)
    → Elsewhere scope key scope' key'
    → matches scope key r ≡ true
    → matches scope' key' r ≡ false
matches-Elsewhere scope key scope' key' r far h = elim (Bool-cases (matches scope' key' r)) [
  | inr other ↦ other
  | inl both ↦
      let (s, k) = matches-eq scope key r h in
      let (s', k') = matches-eq scope' key' r both in
      elim far [ inl n ↦ absurd (n (sym s ∙ s')) | inr n ↦ absurd (n (sym k ∙ k')) ]
]

-- A change of rows that are not of a key leaves the rows of the key.
pub filter-update_where_other :
    (p : Row → Bool) (id : String) (change : Row → Row) (rows : List Row)
    → ((r : Row) → p (change r) ≡ p r)
    → All (λ (r : Row). (r.id == id) ≡ true → p r ≡ false) rows
    → filter p (update_where id change rows) ≡ filter p rows
filter-update_where_other p id change [] keeps h = refl
filter-update_where_other p id change (r ∷ rows) keeps h = elim (Bool-cases (r.id == id)) [
  | inl own ↦ rw (own, keeps r, h.0 own, filter-update_where_other p id change rows keeps h.1) refl
  | inr other ↦ rw (other, filter-update_where_other p id change rows keeps h.1) refl
]

pub some_injective : {A : Type 0} {x y : A} → some x ≡ some y → x ≡ y
some_injective {x = x} e = subst (λ o. elim o as (λ _. Type 0) [ none ↦ ⊥ | some z ↦ x ≡ z ]) e refl

pub find-IsIn :
    (p : Row → Bool) (rows : List Row) (r : Row) → find p rows ≡ some r → IsIn r rows × (p r ≡ true)
find-IsIn p [] r e = absurd (cc)
find-IsIn p (q ∷ rows) r e = elim (Bool-cases (p q)) [
  | inl yes' ↦
      let own : q ≡ r = some_injective (rw yes' at e) in (inl own, subst (λ x. p x ≡ true) own yes')
  | inr no' ↦ let k = find-IsIn p rows r (rw no' at e) in (inr k.0, k.1)
]

map-Distinct :
    (g : Row → Row) (rows : List Row)
    → ((r : Row) → (g r).id ≡ r.id)
    → Distinct rows
    → Distinct (map g rows)
map-Distinct g [] keeps d = tt
map-Distinct g (r ∷ rows) keeps d = (head rows d.0, map-Distinct g rows keeps d.1)
  where
    head :
        (qs : List Row)
        → All (λ (q : Row). (q.id == r.id) ≡ false) qs
        → All (λ (q : Row). (q.id == (g r).id) ≡ false) (map g qs)
    head [] k = tt
    head (q ∷ qs) k = (rw (keeps q, keeps r) k.0, head qs k.1)

pub update_where-Distinct :
    (id : String) (change : Row → Row) (rows : List Row)
    → ((r : Row) → (change r).id ≡ r.id)
    → Distinct rows
    → Distinct (update_where id change rows)
update_where-Distinct id change rows keeps d =
    map-Distinct _ rows
      (λ r. if_elim (λ (q : Row). q.id ≡ r.id) (r.id == id) (λ b. keeps r) (λ b. refl)) d

pub filter-snoc :
    (p : Row → Bool) (rows : List Row) (r : Row)
    → filter p (rows ++ r ∷ []) ≡ filter p rows ++ filter p (r ∷ [])
filter-snoc p [] r = refl
filter-snoc p (q ∷ rows) r = ground (arith, filter-snoc p rows r)

pub find-none : (p : Row → Bool) (rows : List Row) → find p rows ≡ none → filter p rows ≡ []
find-none p [] e = refl
find-none p (r ∷ rows) e = elim (Bool-cases (p r)) [
  | inl yes' ↦ absurd (ground (arith, rw yes' at e))
  | inr no' ↦ rw no' (find-none p rows (rw no' at e))
]

-- Where at most one row passes, the first that passes is all.
pub filter-single :
    (p : Row → Bool) (rows : List Row) (r : Row)
    → length (filter p rows) ≤ 1
    → find p rows ≡ some r
    → filter p rows ≡ r ∷ []
filter-single p [] r h e = absurd (cc)
filter-single p (q ∷ rows) r h e = elim (Bool-cases (p q)) [
  | inl yes' ↦
      let own : q ≡ r = some_injective (rw yes' at e) in
      rw (yes', own, empty (filter p rows) (ground (arith, rw yes' at h))) refl
  | inr no' ↦ rw no' (filter-single p rows r (rw no' at h) (rw no' at e))
]
  where
    empty : (xs : List Row) → length xs ≤ 0 → xs ≡ []
    empty [] k = refl
    empty (x ∷ xs) k = absurd (omega (arith, k))

pub latest-All :
    (P : Row → Type 0) (rows : List Row) {r : Row} → All P rows → latest rows ≡ some r → P r
latest-All P [] h e = absurd (cc)
latest-All P (q ∷ rows) h e = elim (Option-cases (latest rows)) [
  | inl n ↦ subst P (some_injective (rw n at e)) h.0
  | inr (x, m) ↦ elim (Bool-cases (ltb q.expires_at x.expires_at)) [
    | inl later ↦ subst P (some_injective (rw (m, later) at e)) (latest-All P rows h.1 m)
    | inr not_later ↦ subst P (some_injective (rw (m, not_later) at e)) h.0
  ]
]

-- What passes a filter is a row of the table that passes its test.
pub filter-passes :
    (Q : Row → Type 0) (p : Row → Bool) (rows : List Row)
    → ((r : Row) → IsIn r rows → Q r)
    → All (λ (r : Row). Q r × (p r ≡ true)) (filter p rows)
filter-passes Q p [] h = tt
filter-passes Q p (r ∷ rows) h =
    let rest = filter-passes Q p rows (λ q i. h q (inr i)) in
    elim (Bool-cases (p r)) [
      | inl yes' ↦ rw yes' ((h r (inl refl), yes'), rest)
      | inr no' ↦ rw no' rest
    ]
