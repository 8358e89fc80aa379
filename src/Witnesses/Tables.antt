-- ===== src/Witnesses/Tables.antt =====
-- The engine over the table of cooldowns, with a database that names a new row by all the others.
use Prim.Native.String.{◌++◌ as joined, count}
use text.Mathlib.TextLemmas.{length-append}
use freellm_gateway.Base.{
  ℕ, ◌≤◌, ◌<◌, String, true, false, List, [], ◌∷◌, ◌≡◌, refl, arith, All, ap, inr, inl, ◌==◌,
  eq_string, Bool-cases,
}
use freellm_gateway.Cooldown.{model}
use freellm_gateway.Cooldown.PrismaStore.{Row, find_active, prisma_store}
use freellm_gateway.Cooldown.Table.Kept.{prisma-Lawful, prisma-Leaves}
use freellm_gateway.Cooldown.Machine.{
  Call, checks, fails, succeeds, kept_count, run_gates, run_engine, gates_of,
}
use freellm_gateway.Cooldown.Refined.{run_engine-run_gates}
use freellm_gateway.Witnesses.Cooldowns.{calls}
use freellm_gateway.Witnesses.Data.{engine, llama_down}

abbrev name_all : List Row → String
name_all [] = "x"
name_all (r ∷ rows) = joined r.id (name_all rows)

name_all-pos : (rows : List Row) → 0 < count (name_all rows)
name_all-pos [] = omega arith
name_all-pos (r ∷ rows) = omega (arith, length-append r.id (name_all rows), name_all-pos rows)

shorter :
    (n : ℕ) (rows : List Row) → count (name_all rows) ≤ n → All (λ (r : Row). count r.id < n) rows
shorter n [] h = tt
shorter n (r ∷ rows) h = (
  omega (arith, h, length-append r.id (name_all rows), name_all-pos rows),
  shorter n rows (omega (arith, h, length-append r.id (name_all rows))),
)

other_names :
    (name : String) (rows : List Row)
    → All (λ (r : Row). count r.id < count name) rows
    → All (λ (r : Row). (r.id == name) ≡ false) rows
other_names name [] h = tt
other_names name (r ∷ rows) h = (
  elim (Bool-cases (r.id == name)) [
    | inl same ↦ absurd (omega (arith, h.0, ap count ((eq_string.agree_iff r.id name).0 same)))
    | inr other ↦ other
  ],
  other_names name rows h.1,
)

is_new : (rows : List Row) → All (λ (r : Row). (r.id == name_all rows) ≡ false) rows
is_new rows = other_names (name_all rows) rows (shorter (count (name_all rows)) rows (omega arith))

-- After the success the gate lets one probe through and no more.
run_engine-run_gates_example :
    ((run_engine (prisma_store name_all) engine calls []).0
      ≡ (run_gates engine kept_count calls (gates_of (prisma_store name_all) engine [])).0)
    × (gates_of
          (prisma_store name_all)
          engine
          (run_engine (prisma_store name_all) engine calls []).1
        ≡ (run_gates engine kept_count calls (gates_of (prisma_store name_all) engine [])).1)
run_engine-run_gates_example =
    run_engine-run_gates (prisma_store name_all) engine (prisma-Lawful name_all is_new) kept_count
      (prisma-Leaves name_all is_new engine) calls []
      (record { ids = tt; single = λ scope key. omega arith })

abbrev twice : List Call
twice = succeeds 8000 model "llama" ∷ checks 8001 model "llama" ∷ checks 8002 model "llama" ∷ []

one_probe :
    (run_gates engine kept_count
      (fails 1000 500000 llama_down ∷ twice)
      (gates_of (prisma_store name_all) engine [])).0
    ≡ (true, true) ∷ (false, false) ∷ []
unfolding run_gates find_active
one_probe = refl
