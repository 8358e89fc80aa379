-- ===== src/Cache.antt =====
-- apps/api/src/lib/ttl-cache.ts, and apps/api/src/lib/pool-cache.ts, which is the same code over
-- `buildPool`. Beside the fields of `state` the model has the loads that run and the handlers that
-- are still to run: one `Event` is what runs between two turns of the event loop. Reads has what a
-- caller sees, Loads how many loads run.
pub mod Loads
pub mod Reads
use freellm_gateway.Base.{
  ℕ, ◌+◌, ◌-◌, Bool, true, false, Option, none, some, List, [], ◌∷◌, ◌≡◌, ltb, if◌then◌else◌,
}

pub record Cache (A : Type 0) : Type 0 where
  pub value : Option A
  pub expires_at : ℕ
  pub in_flight : Bool
  pub refreshing : Bool
  -- Loads of the cold start that run, and those that have failed and whose `catch` has not run.
  pub cold : ℕ
  pub cold_failed : ℕ
  -- Refreshes that run, and those that have ended and whose `finally` has not run.
  pub refresh : ℕ
  pub refresh_ended : ℕ

abbrev pub new_cache : {A : Type 0} → Cache A
new_cache = record {
  value = none;
  expires_at = 0;
  in_flight = false;
  refreshing = false;
  cold = 0;
  cold_failed = 0;
  refresh = 0;
  refresh_ended = 0;
}

-- What `get` gives at once: a value, or the promise of the load that it joins or starts.
pub data Answer (A : Type 0) : Type 0 where
  served : A → Answer A
  joined : Answer A
  started : Answer A

unfoldable pub get : {A : Type 0} → ℕ → Cache A → Cache A × Answer A
get now c = elim c.value [
  | some a ↦
      if ltb now c.expires_at
      then (c, served a)
      else if c.refreshing
      then (c, served a)
      else (record c { refreshing = true; refresh = c.refresh + 1 }, served a)
  | none ↦
      if c.in_flight
      then (c, joined)
      else (record c { in_flight = true; cold = c.cold + 1 }, started)
]

unfoldable pub invalidate : {A : Type 0} → Cache A → Cache A
invalidate c = record c { value = none; expires_at = 0; refreshing = false }

pub data Event (A : Type 0) : Type 0 where
  -- A call of `get`, with the time.
  gets : ℕ → Event A
  -- A cold load delivers, or fails; then the caller's `catch` runs.
  cold_loads : ℕ → A → Event A
  cold_fails : Event A
  cold_caught : Event A
  -- A refresh delivers, or fails; then its `finally` runs.
  refresh_loads : ℕ → A → Event A
  refresh_fails : Event A
  refresh_finally : Event A
  invalidates : Event A

-- The handlers of a cold load: its `then`, and the `catch` around the caller's `await`.
abbrev pub filled : {A : Type 0} → ℕ → ℕ → A → Cache A → Cache A
filled ttl_ms now next c = record c {
  value = some next;
  expires_at = now + ttl_ms;
  in_flight = false;
  cold = c.cold - 1;
}

abbrev pub caught : {A : Type 0} → Cache A → Cache A
caught c = record c { in_flight = false; cold_failed = c.cold_failed - 1 }

-- One event; none where there is no load or handler of its kind.
unfoldable pub step : {A : Type 0} → ℕ → Event A → Cache A → Option (Cache A)
unfolding get invalidate
step ttl_ms (gets now) c = some (get now c).0
step ttl_ms (cold_loads now next) c = if ltb 0 c.cold then some (filled ttl_ms now next c) else none
step ttl_ms cold_fails c =
    if ltb 0 c.cold
    then some (record c { cold = c.cold - 1; cold_failed = c.cold_failed + 1 })
    else none
step ttl_ms cold_caught c = if ltb 0 c.cold_failed then some (caught c) else none
step ttl_ms (refresh_loads now next) c =
    if ltb 0 c.refresh
    then some (record c {
      value = some next;
      expires_at = now + ttl_ms;
      refresh = c.refresh - 1;
      refresh_ended = c.refresh_ended + 1;
    })
    else none
step ttl_ms refresh_fails c =
    if ltb 0 c.refresh
    then some (record c { refresh = c.refresh - 1; refresh_ended = c.refresh_ended + 1 })
    else none
step ttl_ms refresh_finally c =
    if ltb 0 c.refresh_ended
    then some (record c { refreshing = false; refresh_ended = c.refresh_ended - 1 })
    else none
step ttl_ms invalidates c = some (invalidate c)

-- A sequence of events.
pub data Run {A : Type 0} (ttl_ms : ℕ) : List (Event A) → Cache A → Cache A → Type 0 where
  done : {c : Cache A} → Run ttl_ms [] c c
  then_on :
      {e : Event A} {es : List (Event A)} {c d f : Cache A}
      → step ttl_ms e c ≡ some d
      → Run ttl_ms es d f
      → Run ttl_ms (e ∷ es) c f

-- An event is no invalidation.
abbrev pub IsOrdinary : {A : Type 0} → Event A → Type 0
IsOrdinary invalidates = ⊥
IsOrdinary (gets now) = Unit
IsOrdinary (cold_loads now next) = Unit
IsOrdinary cold_fails = Unit
IsOrdinary cold_caught = Unit
IsOrdinary (refresh_loads now next) = Unit
IsOrdinary refresh_fails = Unit
IsOrdinary refresh_finally = Unit

-- `getCachedPool` and `invalidatePoolCache`: the cache of pools. A pool is a list, also an empty one
-- is a value.
abbrev pub default_ttl_ms : ℕ
default_ttl_ms = 5000

unfoldable pub get_cached_pool :
    {A : Type 0} → ℕ → Cache (List A) → Cache (List A) × Answer (List A)
unfolding get
get_cached_pool now c = get now c

unfoldable pub invalidate_pool_cache : {A : Type 0} → Cache (List A) → Cache (List A)
unfolding invalidate
invalidate_pool_cache c = invalidate c

unfoldable pub pool_event : {A : Type 0} → Event (List A) → Cache (List A) → Option (Cache (List A))
unfolding step
pool_event e c = step default_ttl_ms e c
