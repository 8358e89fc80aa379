-- ===== src/Base/Lists.antt =====
-- Lists measured by native numbers, `filter`, `find` and `some` over Boolean tests.
use Prim.Native.Nat.{ℕ, zero, suc, ◌+◌, ◌≤◌, min}
use mathlib.Core.Path.{◌≡◌, refl, ap, subst}
use mathlib.Core.Bool.{Bool, true, false, ◌||◌}
use mathlib.Core.List.{List, [], ◌∷◌, ◌++◌, map}
use mathlib.Core.Option
use mathlib.Core.Option.{Option, none, some}
use native.Mathlib.Omega.{arith}
use freellm_gateway.Base.Tests.{if◌then◌else◌, StrictEq, ◌==◌, Bool-cases}
use mathlib.Core.Logic.{◌⊎◌, inl, inr}

module _ {ℓ} {A : Type ℓ} where
  abbrev pub length : List A → ℕ
  length [] = 0
  length (x ∷ xs) = suc (length xs)

  abbrev pub take : ℕ → List A → List A
  take zero xs = []
  take (suc n) [] = []
  take (suc n) (x ∷ xs) = x ∷ take n xs

  abbrev pub filter : (A → Bool) → List A → List A
  filter p [] = []
  filter p (x ∷ xs) = let rest = filter p xs in if p x then x ∷ rest else rest

  -- `xs.some(p)`
  abbrev pub any : (A → Bool) → List A → Bool
  any p [] = false
  any p (x ∷ xs) = p x || any p xs

  abbrev pub find : (A → Bool) → List A → Option A
  find p [] = none
  find p (x ∷ xs) = let rest = find p xs in if p x then some x else rest

  pub length-append : (xs ys : List A) → length (xs ++ ys) ≡ length xs + length ys
  length-append [] ys = omega arith
  length-append (x ∷ xs) ys = omega (arith, length-append xs ys)

  pub length-take : (n : ℕ) (xs : List A) → length (take n xs) ≡ min n (length xs)
  length-take zero xs = omega arith
  length-take (suc n) [] = omega arith
  length-take (suc n) (x ∷ xs) = omega (arith, length-take n xs)

  pub length-filter-le : (p : A → Bool) (xs : List A) → length (filter p xs) ≤ length xs
  length-filter-le p [] = omega arith
  length-filter-le p (x ∷ xs) = ground (arith, length-filter-le p xs)

-- `xs.includes(a)`
abbrev pub contains {ℓ} : {A : Type ℓ} ⦃e : StrictEq A⦄ → List A → A → Bool
contains [] a = false
contains (x ∷ xs) a = x == a || contains xs a

module _ {ℓ κ} {A : Type ℓ} (P : A → Type κ) where
  abbrev pub All : List A → Type κ
  All [] = Unit
  All (x ∷ xs) = P x × All xs

  pub All-append : (xs ys : List A) → All xs → All ys → All (xs ++ ys)
  All-append [] ys hx hy = hy
  All-append (x ∷ xs) ys hx hy = (hx.0, All-append xs ys hx.1 hy)

  pub All-take : (n : ℕ) (xs : List A) → All xs → All (take n xs)
  All-take zero xs h = tt
  All-take (suc n) [] h = tt
  All-take (suc n) (x ∷ xs) h = (h.0, All-take n xs h.1)

  pub All-filter : (p : A → Bool) (xs : List A) → All xs → All (filter p xs)
  All-filter p [] h = tt
  All-filter p (x ∷ xs) h = ground (arith, All-filter p xs h.1)

  pub find-All : (p : A → Bool) (xs : List A) {y : A} → All xs → find p xs ≡ some y → P y
  find-All p [] h e = absurd (cc)
  find-All p (x ∷ xs) h e = elim (Bool-cases (p x)) [
    | inl yes' ↦ let e' = rw yes' at e in subst P (cc) h.0
    | inr no' ↦ find-All p xs h.1 (rw no' at e)
  ]

-- A change that keeps a test's verdict is a change of what `find` returns.
pub find-map {ℓ} :
    {A : Type ℓ} (p : A → Bool) (f : A → A) (xs : List A)
    → ((x : A) → p (f x) ≡ p x)
    → find p (map f xs) ≡ Option.map f (find p xs)
find-map p f [] h = refl
find-map p f (x ∷ xs) h = elim (Bool-cases (p x)) [
  | inl yes' ↦ rw (h x, yes') refl
  | inr no' ↦ rw (h x, no') (find-map p f xs h)
]

module _ {ℓ} {A : Type ℓ} (p : A → Bool) where
  -- The first element that a filter keeps passes its test, and is the one that `find` returns.
  pub filter-head :
      (xs : List A) {y : A} {ys : List A}
      → filter p xs ≡ y ∷ ys
      → (p y ≡ true) × (find p xs ≡ some y)
  filter-head [] e = absurd (cc)
  filter-head (x ∷ xs) e = elim (Bool-cases (p x)) [
    | inl yes' ↦ ground arith
    | inr no' ↦ rw no' (filter-head xs (rw no' at e))
  ]

pub map-map : {A : Type 0} (f g : A → A) (xs : List A) → map g (map f xs) ≡ map (λ x. g (f x)) xs
map-map f g [] = refl
map-map f g (x ∷ xs) = ap (λ (ys : List _). g (f x) ∷ ys) (map-map f g xs)

pub map-same : {A : Type 0} (f : A → A) (xs : List A) → ((x : A) → f x ≡ x) → map f xs ≡ xs
map-same f [] h = refl
map-same f (x ∷ xs) h = rw (h x, map-same f xs h) refl

-- Membership.
abbrev pub IsIn : {A : Type 0} → A → List A → Type 0
IsIn a [] = ⊥
IsIn a (x ∷ xs) = (x ≡ a) ⊎ IsIn a xs

pub All-IsIn : {A : Type 0} (P : A → Type 0) (a : A) (xs : List A) → All P xs → IsIn a xs → P a
All-IsIn P a [] h i = absurd i
All-IsIn P a (x ∷ xs) h (inl e) = subst P e h.0
All-IsIn P a (x ∷ xs) h (inr i) = All-IsIn P a xs h.1 i

pub append_nil : {A : Type 0} (xs : List A) → xs ++ [] ≡ xs
append_nil [] = refl
append_nil (x ∷ xs) = ap (λ (ys : List _). x ∷ ys) (append_nil xs)

pub map-append :
    {A B : Type 0} (f : A → B) (xs ys : List A) → map f (xs ++ ys) ≡ map f xs ++ map f ys
map-append f [] ys = refl
map-append f (x ∷ xs) ys = ap (λ (zs : List _). f x ∷ zs) (map-append f xs ys)

pub append_assoc : {A : Type 0} (xs ys zs : List A) → (xs ++ ys) ++ zs ≡ xs ++ (ys ++ zs)
append_assoc [] ys zs = refl
append_assoc (x ∷ xs) ys zs = ap (λ (ws : List _). x ∷ ws) (append_assoc xs ys zs)

pub map-agree :
    {A B : Type 0} (f g : A → B) (xs : List A)
    → ((x : A) → IsIn x xs → f x ≡ g x)
    → map f xs ≡ map g xs
map-agree f g [] h = refl
map-agree f g (x ∷ xs) h = rw (h x (inl refl), map-agree f g xs (λ y i. h y (inr i))) refl
