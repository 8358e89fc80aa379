-- ===== src/Number.antt =====
-- JavaScript numbers that are fractions: scores, weights and random draws. The doubles are a
-- parameter of the modules that compute with them, with the operations that the source uses and
-- what IEEE 754 says of the comparisons of finite values.
use freellm_gateway.Base.{
  ℕ, String, Bool, true, false, ◌||◌, ◌≡◌, if◌then◌else◌, Bool-cases, inl, inr, arith,
}

pub record Number : Type 1 where
  pub F : Type 0
  -- The double nearest to the quotient of two numerals.
  pub lit : ℕ → ℕ → F
  pub add : F → F → F
  pub sub : F → F → F
  pub mul : F → F → F
  pub div : F → F → F
  pub neg : F → F
  pub less : F → F → Bool
  pub equal : F → F → Bool
  pub is_finite : F → Bool
  -- `Math.round` and `toFixed`.
  pub round : F → F
  pub to_fixed : F → ℕ → String
  pub zero_finite : is_finite (lit 0 1) ≡ true
  pub one_finite : is_finite (lit 1 1) ≡ true
  pub zero-less-one : less (lit 0 1) (lit 1 1) ≡ true
  pub less_asym : (a b : F) → less a b ≡ true → less b a ≡ false
  pub less_cotrans :
      (a b c : F)
      → is_finite a ≡ true
      → is_finite b ≡ true
      → is_finite c ≡ true
      → less a b ≡ false
      → less b c ≡ false
      → less a c ≡ false

module _ (N : Number) where
  open N use {F, lit, less, equal, is_finite}

  -- `a <= b`
  unfoldable pub at_most : F → F → Bool
  at_most a b = less a b || equal a b

  -- `Math.max` and `Math.min` of two values that are not NaN.
  unfoldable pub max_of : F → F → F
  max_of a b = if less a b then b else a

  unfoldable pub min_of : F → F → F
  min_of a b = if less b a then b else a

  less_irrefl : (a : F) → less a a ≡ false
  less_irrefl a = elim (Bool-cases (less a a)) [
    | inl below ↦ N.less_asym a a below
    | inr here ↦ here
  ]

  -- packages/routing-core/src/scorer.ts
  unfoldable pub clamp01 : F → F
  unfolding max_of min_of
  clamp01 n = if is_finite n then min_of (lit 1 1) (max_of (lit 0 1) n) else lit 0 1

  -- Between 0 and 1, and finite.
  pub record IsScore (x : F) : Type 0 where
    pub finite : is_finite x ≡ true
    pub not_below : less x (lit 0 1) ≡ false
    pub not_above : less (lit 1 1) x ≡ false

  pub zero-IsScore : IsScore (lit 0 1)
  zero-IsScore = record {
    finite = N.zero_finite;
    not_below = less_irrefl (lit 0 1);
    not_above = N.less_asym _ _ N.zero-less-one;
  }

  -- Whatever number it is given, `clamp01` returns a finite number from 0 to 1.
  pub clamp01-IsScore : (n : F) → IsScore (clamp01 n)
  unfolding clamp01
  clamp01-IsScore n = ground (
    arith,
    less_irrefl (lit 0 1),
    less_irrefl (lit 1 1),
    N.zero_finite,
    N.one_finite,
    N.zero-less-one,
    N.less_asym (lit 0 1) (lit 1 1),
    N.less_asym (lit 0 1) n,
    N.less_asym n (lit 1 1),
  )
