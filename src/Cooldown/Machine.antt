-- ===== src/Cooldown/Machine.antt =====
-- What the engine promises of all keys, as a machine with a gate for each; the gates that a store
-- stands for, and rows of calls on the engine and on the machine.
use freellm_gateway.Base.{
  ◌≡◌, ℕ, ◌+◌, String, Bool, true, false, ◌&&◌, none, some, Option, List, [], ◌∷◌, ◌==◌, eq_string,
  ltb, if◌then◌else◌,
}
use freellm_gateway.Cooldown.{
  Scope, scope_eq, CooldownRecord, CooldownStore, CooldownDecision, RegisterFailureInput,
  EngineOptions, check, register_failure, register_success, backoff,
}

-- A key that is open; one that is closed until a time, after a number of failures; and one of
-- which a probe is out.
pub data Gate : Type 0 where
  opened : Gate
  benched : ℕ → ℕ → Gate
  probing : ℕ → Gate

abbrev pub failures : Gate → ℕ
failures opened = 0
failures (benched n until) = n
failures (probing n) = n

-- Whether a caller is let through, and whether as a probe; and the gate after it.
abbrev pub ask : ℕ → Gate → (Bool × Bool) × Gate
ask now opened = ((true, false), opened)
ask now (benched n until) =
    if ltb now until then ((false, false), benched n until) else ((true, true), probing n)
ask now (probing n) = ((false, false), probing n)

abbrev pub bench : EngineOptions → ℕ → ℕ → Option ℕ → Gate → Gate
bench opts now random hint_ms g =
    benched (failures g + 1) (now + backoff opts (failures g + 1) hint_ms random)

-- A success, in a store whose reset leaves of a gate what `left` says; an open gate stays open.
abbrev pub succeed : (Gate → Gate) → Gate → Gate
succeed left opened = opened
succeed left g = left g

-- What the resets of the two stores leave: the in-memory store forgets the gate, the table keeps its
-- failures, with a backoff that is over.
abbrev pub forgotten : Gate → Gate
forgotten g = opened

abbrev pub kept_count : Gate → Gate
kept_count g = benched (failures g) 0

abbrev pub Gates : Type 0
Gates = Scope → String → Gate

abbrev pub set : Scope → String → Gate → Gates → Gates
set scope key g gates scope' key' = if scope == scope' && key == key' then g else gates scope' key'

-- The calls of the engine, each with its time.
pub data Call : Type 0 where
  checks : ℕ → Scope → String → Call
  fails : ℕ → ℕ → RegisterFailureInput → Call
  succeeds : ℕ → Scope → String → Call

-- The answers to the checks, and the gates after the calls.
unfoldable pub run_gates :
    EngineOptions → (Gate → Gate) → List Call → Gates → List (Bool × Bool) × Gates
run_gates opts left [] gates = ([], gates)
run_gates opts left (checks now scope key ∷ calls) gates =
    let (answer, g) = ask now (gates scope key) in
    let (answers, last) = run_gates opts left calls (set scope key g gates) in
    (answer ∷ answers, last)
run_gates opts left (fails now random input ∷ calls) gates = run_gates opts left calls (
    set input.scope input.key (bench opts now random input.hint_ms (gates input.scope input.key))
      gates)
run_gates opts left (succeeds now scope key ∷ calls) gates =
    run_gates opts left calls (set scope key (succeed left (gates scope key)) gates)

abbrev pub answer_of : CooldownDecision → Bool × Bool
answer_of d = (d.allowed, d.half_open_probe)

abbrev pub gate_of : Option CooldownRecord → Gate
gate_of none = opened
gate_of (some r) = if r.half_open then probing r.attempts else benched r.attempts r.expires_at

module _ {S : Type 0} (store : CooldownStore S) (opts : EngineOptions) where
  unfoldable pub run_engine : List Call → S → List (Bool × Bool) × S
  run_engine [] s = ([], s)
  run_engine (checks now scope key ∷ calls) s =
      let (s', d) = check store opts now scope key s in
      let (answers, last) = run_engine calls s' in (answer_of d ∷ answers, last)
  run_engine (fails now random input ∷ calls) s =
      run_engine calls (register_failure store opts now random input s).0
  run_engine (succeeds now scope key ∷ calls) s =
      run_engine calls (register_success store opts now scope key s)

  -- The gates that a store stands for.
  abbrev pub gates_of : S → Gates
  gates_of s scope key = gate_of (store.find_active scope key s)

  -- What a reset leaves of the gate of a key that has a record.
  abbrev pub Leaves : (S → Type 0) → (Gate → Gate) → Type 0
  Leaves Inv left =
      (now : ℕ) (scope : Scope) (key : String) (s : S) (x : CooldownRecord)
      → Inv s
      → store.find_active scope key s ≡ some x
      → gate_of (store.find_active scope key (store.reset now x.id s)) ≡ left (gate_of (some x))
