-- ===== src/Base/Sort.antt =====
-- `Array.prototype.sort` with a comparator: the stable order. `less a b` says that the comparator
-- puts `a` strictly before `b`.
use Prim.Native.Nat.{suc}
use mathlib.Core.Path.{◌≡◌, refl, ap, ◌∙◌}
use mathlib.Core.Bool.{Bool, true, false}
use mathlib.Core.List.{List, [], ◌∷◌, Perm}
use mathlib.Core.List.Perm
use mathlib.Core.Logic.{inl, inr}
use native.Mathlib.Omega.{arith}
use freellm_gateway.Base.Tests.{if◌then◌else◌, Bool-cases}
use freellm_gateway.Base.Lists.{All, length}

module _ {ℓ} {A : Type ℓ} (less : A → A → Bool) where
  abbrev pub insert_by : A → List A → List A
  insert_by x [] = x ∷ []
  insert_by x (y ∷ ys) = let rest = insert_by x ys in if less y x then y ∷ rest else x ∷ y ∷ ys

  unfoldable pub sort_by : List A → List A
  sort_by [] = []
  sort_by (x ∷ xs) = insert_by x (sort_by xs)

  insert_by-perm : (x : A) (ys : List A) → Perm (insert_by x ys) (x ∷ ys)
  insert_by-perm x [] = Perm.refl _
  insert_by-perm x (y ∷ ys) = elim (Bool-cases (less y x)) [
    | inl later ↦ rw later (Perm.trans (Perm.cons y (insert_by-perm x ys)) (Perm.swap x y ys))
    | inr here ↦ rw here (Perm.refl _)
  ]

  -- Sorting rearranges.
  pub sort_by-perm : (xs : List A) → Perm (sort_by xs) xs
  unfolding sort_by
  sort_by-perm [] = Perm.refl _
  sort_by-perm (x ∷ xs) = Perm.trans (insert_by-perm x (sort_by xs)) (Perm.cons x (sort_by-perm xs))

  insert_by-All {κ} :
      (P : A → Type κ) (x : A) (ys : List A) → P x → All P ys → All P (insert_by x ys)
  insert_by-All P x [] p h = (p, tt)
  insert_by-All P x (y ∷ ys) p h = ground (arith, insert_by-All P x ys p h.1)

  pub sort_by-All {κ} : (P : A → Type κ) (xs : List A) → All P xs → All P (sort_by xs)
  unfolding sort_by
  sort_by-All P [] h = tt
  sort_by-All P (x ∷ xs) h = insert_by-All P x (sort_by xs) h.0 (sort_by-All P xs h.1)

  length-insert_by : (x : A) (ys : List A) → length (insert_by x ys) ≡ length (x ∷ ys)
  length-insert_by x [] = refl
  length-insert_by x (y ∷ ys) = ground (arith, length-insert_by x ys)

  pub length-sort_by : (xs : List A) → length (sort_by xs) ≡ length xs
  unfolding sort_by
  length-sort_by [] = refl
  length-sort_by (x ∷ xs) = length-insert_by x (sort_by xs) ∙ ap (λ n. suc n) (length-sort_by xs)

  -- No later element is to stand before an earlier one.
  abbrev pub InOrder : List A → Type ℓ
  InOrder [] = Unit
  InOrder (x ∷ xs) = All (λ y. less y x ≡ false) xs × InOrder xs

  -- Where the comparator is asymmetric, and transitive on its "not before" between the elements,
  -- sorting puts them in order.
  module _ {κ} (P : A → Type κ) (asym : (a b : A) → less a b ≡ true → less b a ≡ false)
      (cotrans : (a b c : A)
        → P a
        → P b
        → P c
        → less a b ≡ false
        → less b c ≡ false
        → less a c ≡ false) where
    not_before :
        (x y : A) (ys : List A)
        → P x
        → P y
        → All P ys
        → less y x ≡ false
        → All (λ z. less z y ≡ false) ys
        → All (λ z. less z x ≡ false) ys
    not_before x y [] p q h k l = tt
    not_before x y (z ∷ ys) p q h k l =
        (cotrans z y x h.0 q p l.0 k, not_before x y ys p q h.1 k l.1)

    insert_by-InOrder :
        (x : A) (ys : List A) → P x → All P ys → InOrder ys → InOrder (insert_by x ys)
    insert_by-InOrder x [] p h o = (tt, tt)
    insert_by-InOrder x (y ∷ ys) p h o = elim (Bool-cases (less y x)) [
      | inl later ↦ rw later (
        insert_by-All (λ z. less z y ≡ false) x ys (asym y x later) o.0,
        insert_by-InOrder x ys p h.1 o.1,
      )
      | inr here ↦ rw here ((here, not_before x y ys p h.0 h.1 here o.0), o)
    ]

    pub sort_by-InOrder : (xs : List A) → All P xs → InOrder (sort_by xs)
    unfolding sort_by
    sort_by-InOrder [] h = tt
    sort_by-InOrder (x ∷ xs) h =
        insert_by-InOrder x (sort_by xs) h.0 (sort_by-All P xs h.1) (sort_by-InOrder xs h.1)
