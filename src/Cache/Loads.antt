-- ===== src/Cache/Loads.antt =====
-- How many loads run at a time.
use freellm_gateway.Base.{
  ℕ, ◌+◌, ◌≤◌, ◌<◌, Bool, true, false, none, some, List, ◌≡◌, refl, arith, All, is_some, ltb,
  Bool-cases, ◌⊎◌, inl, inr, ◌≢◌,
}
use freellm_gateway.Cache.{
  Cache, new_cache, filled, caught, served, joined, get, invalidate, Event, gets, cold_loads,
  cold_fails, cold_caught, refresh_loads, refresh_fails, refresh_finally, invalidates, step, Run,
  IsOrdinary, done, then_on,
}

abbrev as_nat : Bool → ℕ
as_nat true = 1
as_nat false = 0

module _ {A : Type 0} where
  -- At most one cold load, also where the cache is invalidated.
  abbrev IsSingle : Cache A → Type 0
  IsSingle c = c.cold + c.cold_failed ≡ as_nat c.in_flight

  step-IsSingle :
      (ttl_ms : ℕ) (e : Event A) (c d : Cache A)
      → IsSingle c
      → step ttl_ms e c ≡ some d
      → IsSingle d
  unfolding step get invalidate
  step-IsSingle ttl_ms (gets now) c d h run = ground arith
  step-IsSingle ttl_ms (cold_loads now next) c d h run = ground arith
  step-IsSingle ttl_ms cold_fails c d h run = ground arith
  step-IsSingle ttl_ms cold_caught c d h run = ground arith
  step-IsSingle ttl_ms (refresh_loads now next) c d h run = ground arith
  step-IsSingle ttl_ms refresh_fails c d h run = ground arith
  step-IsSingle ttl_ms refresh_finally c d h run = ground arith
  step-IsSingle ttl_ms invalidates c d h run = ground arith

  run-IsSingle :
      (ttl_ms : ℕ) (es : List (Event A)) (c d : Cache A)
      → IsSingle c
      → Run ttl_ms es c d
      → IsSingle d
  run-IsSingle ttl_ms es c d h done = h
  run-IsSingle ttl_ms es c d h (then_on {e} {es = es'} {d = c'} now more) =
      run-IsSingle ttl_ms es' c' d (step-IsSingle ttl_ms e c c' h now) more

  -- In any run of a new cache, invalidations included, at most one cold load runs at a time, and one
  -- that runs is what `in_flight` shows.
  pub run-cold :
      (ttl_ms : ℕ) (es : List (Event A)) (c : Cache A)
      → Run ttl_ms es new_cache c
      → (c.cold ≤ 1) × (0 < c.cold → c.in_flight ≡ true)
  run-cold ttl_ms es c run = ground (arith, run-IsSingle ttl_ms es new_cache c (omega arith) run)

  record IsOne (c : Cache A) : Type 0 where
    single : IsSingle c
    refreshes : c.refresh + c.refresh_ended ≡ as_nat c.refreshing
    cold_is_empty : c.in_flight ≡ true → c.value ≡ none
    refresh_has_value : c.refreshing ≡ true → is_some c.value ≡ true

  step-IsOne :
      (ttl_ms : ℕ) (e : Event A) (c d : Cache A)
      → IsOrdinary e
      → IsOne c
      → step ttl_ms e c ≡ some d
      → IsOne d
  unfolding step get invalidate
  step-IsOne ttl_ms (gets now) c d o h run = ground arith
  step-IsOne ttl_ms (cold_loads now next) c d o h run = ground arith
  step-IsOne ttl_ms cold_fails c d o h run = ground arith
  step-IsOne ttl_ms cold_caught c d o h run = ground arith
  step-IsOne ttl_ms (refresh_loads now next) c d o h run = ground arith
  step-IsOne ttl_ms refresh_fails c d o h run = ground arith
  step-IsOne ttl_ms refresh_finally c d o h run = ground arith
  step-IsOne ttl_ms invalidates c d o h run = absurd o

  run-IsOne :
      (ttl_ms : ℕ) (es : List (Event A)) (c d : Cache A)
      → All IsOrdinary es
      → IsOne c
      → Run ttl_ms es c d
      → IsOne d
  run-IsOne ttl_ms es c d o h done = h
  run-IsOne ttl_ms es c d o h (then_on {e} {es = es'} {d = c'} now more) =
      run-IsOne ttl_ms es' c' d o.1 (step-IsOne ttl_ms e c c' o.0 h now) more

  new-IsOne : IsOne new_cache
  new-IsOne = ground arith

  -- Without invalidations, at most one load of any kind runs at a time: no refresh beside a cold
  -- load, no second refresh.
  run-loads :
      (ttl_ms : ℕ) (es : List (Event A)) (c : Cache A)
      → All IsOrdinary es
      → Run ttl_ms es new_cache c
      → c.cold + c.refresh ≤ 1
  run-loads ttl_ms es c o run =
      let h = run-IsOne ttl_ms es new_cache c o new-IsOne run in ground arith

  failed :
      (c : Cache A)
      → IsSingle c
      → c.in_flight ≡ true
      → ltb 0 c.cold ≡ false
      → ltb 0 c.cold_failed ≡ true
  failed c single waits e = ground arith

  get-filled :
      (ttl_ms now : ℕ) (a : A) (c : Cache A) → (get now (filled ttl_ms now a c)).1 ≡ served a
  unfolding get
  get-filled ttl_ms now a c = ground arith

  get-caught : (now : ℕ) (c : Cache A) → (get now (caught c)).1 ≢ joined
  unfolding get
  get-caught now c e = ground arith

  -- A caller that waits is not left waiting: in any run of a new cache, where a load is under way
  -- for its callers, either it can deliver, and then a call is served what it delivers, or it has
  -- failed, and once its `catch` has run the next call does not join it.
  pub run-joined :
      (ttl_ms : ℕ) (es : List (Event A)) (c : Cache A) (now : ℕ) (a : A)
      → Run ttl_ms es new_cache c
      → c.in_flight ≡ true
      → ((d : Cache A) × (step ttl_ms (cold_loads now a) c ≡ some d) × ((get now d).1 ≡ served a))
        ⊎ ((d : Cache A) × (step ttl_ms cold_caught c ≡ some d) × ((get now d).1 ≢ joined))
  unfolding step get
  run-joined ttl_ms es c now a run waits =
      let single = run-IsSingle ttl_ms es new_cache c (omega arith) run in
      elim (Bool-cases (ltb 0 c.cold)) [
        | inl e ↦ inl (filled ttl_ms now a c, rw e refl, get-filled ttl_ms now a c)
        | inr e ↦ inr (caught c, rw (failed c single waits e) refl, get-caught now c)
      ]
