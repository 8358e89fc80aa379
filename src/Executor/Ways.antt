-- ===== src/Executor/Ways.antt =====
-- Case distinctions on the ways through a round of `execute`: what holds of each way holds of the
-- round.
use freellm_gateway.Base.{Bool, true, false, Option, none, some, ◌≡◌, refl, if◌then◌else◌}
use freellm_gateway.Executor.{Payload}
use freellm_gateway.Executor.Attempt.{Verdict, continues, breaks, returns}

module _ {R : Type 0} (Q : R → Type 0) where
  pub by_if : (b : Bool) (x y : R) → Q x → Q y → Q (if b then x else y)
  by_if true x y h k = h
  by_if false x y h k = k

  pub by_registry :
      {A : Type 0} (o : Option A) (x : R) (y : A → R)
      → Q x
      → ((a : A) → Q (y a))
      → Q (elim o as (λ _. R) [ none ↦ x | some a ↦ y a ])
  by_registry none x y h k = h
  by_registry (some a) x y h k = k a

  pub by_gate :
      {A : Type 0} (o : Option A) (x : R) (y : A → R)
      → Q x
      → ((a : A) → Q (y a))
      → Q (elim o as (λ _. R) [ some a ↦ y a | none ↦ x ])
  by_gate none x y h k = h
  by_gate (some a) x y h k = k a

  pub by_verdict :
      {Body Chunk : Type 0} (v : Verdict Body Chunk) (rest stop : R) (done : Payload Body Chunk → R)
      → (v ≡ continues → Q rest)
      → (v ≡ breaks → Q stop)
      → ((p : Payload Body Chunk) → v ≡ returns p → Q (done p))
      → Q (elim v as (λ _. R) [ continues ↦ rest | breaks ↦ stop | returns p ↦ done p ])
  by_verdict continues rest stop done r s d = r refl
  by_verdict breaks rest stop done r s d = s refl
  by_verdict (returns p) rest stop done r s d = d p refl
