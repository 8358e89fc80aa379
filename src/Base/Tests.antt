-- ===== src/Base/Tests.antt =====
-- Boolean tests on numbers, texts and enumerations, and the conditional.
use Prim.Native.Nat.{ℕ, compare, Ordering}
use Prim.Native.String.{String}
use mathlib.Core.Path.{◌≡◌, refl, sym}
use mathlib.Core.Logic.{◌↔◌, ◌⊎◌, inl, inr}
use mathlib.Core.Bool.{Bool, true, false, ◌&&◌}
use mathlib.Core.List.{List, [], ◌∷◌}
use mathlib.Core.Option.{Option, none, some}
use native.Mathlib.Omega.{arith}
use text.Mathlib.Text.{◌==◌ as text_agree}
use text.Mathlib.TextEquality.{eq_iff}

abbrev pub ltb : ℕ → ℕ → Bool
ltb a b = elim (compare a b) [ Ordering.lt ↦ true | _ ↦ false ]

abbrev pub leb : ℕ → ℕ → Bool
leb a b = elim (compare a b) [ Ordering.gt ↦ false | _ ↦ true ]

abbrev pub nat_beq : ℕ → ℕ → Bool
nat_beq a b = elim (compare a b) [ Ordering.eq ↦ true | _ ↦ false ]

pub nat_beq_iff : (a b : ℕ) → (nat_beq a b ≡ true) ↔ (a ≡ b)
nat_beq_iff a b = ground arith

infix 1 if◌then◌else◌
abbrev pub if◌then◌else◌ {ℓ} : {A : Type ℓ} → Bool → A → A → A
if true then x else y = x
if false then x else y = y

pub if_same {ℓ} : {A : Type ℓ} (b : Bool) (x : A) → (if b then x else x) ≡ x
if_same true x = refl
if_same false x = refl

-- `===` at one type.
pub record StrictEq {ℓ} (V : Type ℓ) : Type ℓ where
  pub agree : V → V → Bool
  pub agree_iff : (x y : V) → (agree x y ≡ true) ↔ (x ≡ y)

instance abbrev pub eq_string : StrictEq String
eq_string = record { agree = text_agree; agree_iff = eq_iff }

instance abbrev pub eq_nat : StrictEq ℕ
eq_nat = record { agree = nat_beq; agree_iff = nat_beq_iff }

abbrev pub units_agree : List ℕ → List ℕ → Bool
units_agree [] [] = true
units_agree [] (d ∷ ds) = false
units_agree (c ∷ cs) [] = false
units_agree (c ∷ cs) (d ∷ ds) = nat_beq c d && units_agree cs ds

pub units_agree_iff : (xs ys : List ℕ) → (units_agree xs ys ≡ true) ↔ (xs ≡ ys)
units_agree_iff [] [] = (λ h. refl, λ h. refl)
units_agree_iff [] (d ∷ ds) = (λ h. absurd (cc), λ h. absurd (cc))
units_agree_iff (c ∷ cs) [] = (λ h. absurd (cc), λ h. absurd (cc))
units_agree_iff (c ∷ cs) (d ∷ ds) =
    let tail = units_agree_iff cs ds in
    let head = nat_beq_iff c d in
    (λ h. ground (arith, h, tail, head), λ h. ground (arith, h, tail, head))

instance abbrev pub eq_units : StrictEq (List ℕ)
eq_units = record { agree = units_agree; agree_iff = units_agree_iff }

module _ {ℓ} {V : Type ℓ} ⦃cmp : StrictEq V⦄ where
  infix 50 ◌==◌
  abbrev pub ◌==◌ : V → V → Bool
  x == y = cmp.agree x y

  pub ==-refl : (x : V) → (x == x) ≡ true
  ==-refl x = (cmp.agree_iff x x).1 refl

pub true≢false : ¬ (true ≡ false)
true≢false h = ground (arith, h)

pub Bool-cases : (b : Bool) → (b ≡ true) ⊎ (b ≡ false)
Bool-cases true = inl refl
Bool-cases false = inr refl

pub Option-cases {ℓ} : {A : Type ℓ} (o : Option A) → (o ≡ none) ⊎ ((a : A) × (o ≡ some a))
Option-cases none = inl refl
Option-cases (some a) = inr (a, refl)

-- `o ?? d` on a value that may be null.
abbrev pub or_else {ℓ} : {A : Type ℓ} → Option A → A → A
or_else none d = d
or_else (some a) d = a

abbrev pub is_some {ℓ} : {A : Type ℓ} → Option A → Bool
is_some none = false
is_some (some a) = true

-- What holds on both branches of a conditional holds of it.
pub if_elim {ℓ κ} :
    {A : Type ℓ} (P : A → Type κ) (b : Bool) {x y : A}
    → (b ≡ true → P x)
    → (b ≡ false → P y)
    → P (if b then x else y)
if_elim P true yes' no' = yes' refl
if_elim P false yes' no' = no' refl

-- What holds on both cases of an optional value holds of the case distinction.
pub option_elim {ℓ κ μ} :
    {A : Type ℓ} {B : Type κ} (P : B → Type μ) (o : Option A) {n : B} {s : A → B}
    → (o ≡ none → P n)
    → ((a : A) → o ≡ some a → P (s a))
    → P (elim o [ none ↦ n | some a ↦ s a ])
option_elim P none n s = n refl
option_elim P (some a) n s = s a refl

pub if_yes {ℓ} : {A : Type ℓ} (b : Bool) (x y : A) → b ≡ true → (if b then x else y) ≡ x
if_yes true x y h = refl
if_yes false x y h = absurd (true≢false (sym h))
