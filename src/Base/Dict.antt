-- ===== src/Base/Dict.antt =====
-- A JavaScript `Map` as an association list in insertion order: `get`, `set` and `delete`.
use mathlib.Core.Path.{◌≡◌, refl, subst}
use mathlib.Core.Bool.{false}
use mathlib.Core.Logic.{inl, inr}
use mathlib.Core.List.{List, [], ◌∷◌}
use mathlib.Core.Option.{Option, none, some}
use native.Mathlib.Omega.{arith}
use freellm_gateway.Base.Tests.{if◌then◌else◌, StrictEq, ◌==◌, Bool-cases}
use freellm_gateway.Base.Lists.{All}

module _ {ℓ κ} {K : Type ℓ} {V : Type κ} ⦃e : StrictEq K⦄ where
  unfoldable pub lookup : K → List (K × V) → Option V
  lookup k [] = none
  lookup k ((j, v) ∷ m) = let rest = lookup k m in if j == k then some v else rest

  -- A key that is present keeps its place.
  unfoldable pub insert : K → V → List (K × V) → List (K × V)
  insert k v [] = (k, v) ∷ []
  insert k v ((j, w) ∷ m) = let rest = insert k v m in if j == k then (k, v) ∷ m else (j, w) ∷ rest

  unfoldable pub delete : K → List (K × V) → List (K × V)
  delete k [] = []
  delete k ((j, w) ∷ m) = let rest = delete k m in if j == k then rest else (j, w) ∷ rest

  -- `map.set(key, x); map.get(other)`.
  pub lookup-insert :
      (other key : K) (x : V) (entries : List (K × V))
      → (if key == other then some x else lookup other entries)
        ≡ lookup other (insert key x entries)
  unfolding lookup insert
  lookup-insert other key x [] = refl
  lookup-insert other key x ((first, y) ∷ entries) =
      let rest = lookup-insert other key x entries in
      ground (arith, rest, e.agree_iff first other, e.agree_iff first key, e.agree_iff key other)

  pub lookup-delete :
      (key other : K) (entries : List (K × V))
      → (if key == other then none else lookup other entries) ≡ lookup other (delete key entries)
  unfolding lookup delete
  lookup-delete key other [] = ground arith
  lookup-delete key other ((first, y) ∷ entries) =
      let rest = lookup-delete key other entries in
      ground (arith, rest, e.agree_iff first other, e.agree_iff first key, e.agree_iff key other)

  pub lookup-insert_self :
      (k j : K) (v : V) (m : List (K × V)) → k ≡ j → lookup j (insert k v m) ≡ some v
  lookup-insert_self k j v m h = rw (← lookup-insert j k v m, (e.agree_iff k j).1 h)

  pub lookup-insert_ne :
      (k j : K) (v : V) (m : List (K × V)) → (k == j) ≡ false → lookup j (insert k v m) ≡ lookup j m
  lookup-insert_ne k j v m h = rw (← lookup-insert j k v m, h)

  pub lookup-delete_self : (k j : K) (m : List (K × V)) → k ≡ j → lookup j (delete k m) ≡ none
  lookup-delete_self k j m h = rw (← lookup-delete k j m, (e.agree_iff k j).1 h)

  pub lookup-delete_ne :
      (k j : K) (m : List (K × V)) → (k == j) ≡ false → lookup j (delete k m) ≡ lookup j m
  lookup-delete_ne k j m h = rw (← lookup-delete k j m, h)

  -- What holds of each entry holds of the entry that is found.
  pub lookup-All {μ} :
      (P : K → V → Type μ) (k : K) (v : V) (m : List (K × V))
      → All (λ b. P b.0 b.1) m
      → lookup k m ≡ some v
      → P k v
  unfolding lookup
  lookup-All P k v [] h q = absurd (cc)
  lookup-All P k v ((j, w) ∷ m) h q = elim (Bool-cases (j == k)) [
    | inl same ↦ subst (λ i. P i v) ((e.agree_iff j k).0 same) (subst (P j) (ground arith) h.0)
    | inr other ↦ lookup-All P k v m h.1 (ground arith)
  ]

  pub insert-All {μ} :
      (P : K → V → Type μ) (k : K) (v : V) (m : List (K × V))
      → All (λ b. P b.0 b.1) m
      → P k v
      → All (λ b. P b.0 b.1) (insert k v m)
  unfolding insert
  insert-All P k v [] h p = (p, tt)
  insert-All P k v ((j, w) ∷ m) h p = ground (arith, insert-All P k v m h.1 p)

  pub delete-All {μ} :
      (P : K → V → Type μ) (k : K) (m : List (K × V))
      → All (λ b. P b.0 b.1) m
      → All (λ b. P b.0 b.1) (delete k m)
  unfolding delete
  delete-All P k [] h = tt
  delete-All P k ((j, w) ∷ m) h = ground (arith, delete-All P k m h.1)
