-- ===== src/Cache/Reads.antt =====
-- What a caller of the cache gets.
use freellm_gateway.Base.{
  ℕ, ◌+◌, ◌<◌, Bool, true, false, Option, none, some, List, [], ◌∷◌, ◌≡◌, refl, sym, arith, All, ap,
  ◌∙◌,
}
use freellm_gateway.Cache.{
  Cache, Answer, served, joined, started, get, invalidate, Event, gets, cold_loads, cold_fails,
  cold_caught, refresh_loads, refresh_fails, refresh_finally, invalidates, step, Run, done, then_on,
}

-- The value last delivered, unless it was invalidated since.
abbrev pub latest : {A : Type 0} → Option A → List (Event A) → Option A
latest old [] = old
latest old (gets now ∷ es) = latest old es
latest old (cold_loads now next ∷ es) = latest (some next) es
latest old (cold_fails ∷ es) = latest old es
latest old (cold_caught ∷ es) = latest old es
latest old (refresh_loads now next ∷ es) = latest (some next) es
latest old (refresh_fails ∷ es) = latest old es
latest old (refresh_finally ∷ es) = latest old es
latest old (invalidates ∷ es) = latest none es

-- The answer that a reader of `latest` expects.
abbrev pub answer : {A : Type 0} → Option A → Bool → Answer A
answer (some a) in_flight = served a
answer none true = joined
answer none false = started

module _ {A : Type 0} where
  step-latest :
      (ttl_ms : ℕ) (e : Event A) (c d : Cache A)
      → step ttl_ms e c ≡ some d
      → d.value ≡ latest c.value (e ∷ [])
  unfolding step get invalidate
  step-latest ttl_ms (gets now) c d run = ground arith
  step-latest ttl_ms (cold_loads now next) c d run = ground arith
  step-latest ttl_ms cold_fails c d run = ground arith
  step-latest ttl_ms cold_caught c d run = ground arith
  step-latest ttl_ms (refresh_loads now next) c d run = ground arith
  step-latest ttl_ms refresh_fails c d run = ground arith
  step-latest ttl_ms refresh_finally c d run = ground arith
  step-latest ttl_ms invalidates c d run = ground arith

  latest-cons :
      (old : Option A) (e : Event A) (es : List (Event A))
      → latest old (e ∷ es) ≡ latest (latest old (e ∷ [])) es
  latest-cons old (gets now) es = refl
  latest-cons old (cold_loads now next) es = refl
  latest-cons old cold_fails es = refl
  latest-cons old cold_caught es = refl
  latest-cons old (refresh_loads now next) es = refl
  latest-cons old refresh_fails es = refl
  latest-cons old refresh_finally es = refl
  latest-cons old invalidates es = refl

  run-latest :
      (ttl_ms : ℕ) (es : List (Event A)) (c d : Cache A)
      → Run ttl_ms es c d
      → d.value ≡ latest c.value es
  run-latest ttl_ms es c d done = refl
  run-latest ttl_ms es c d (then_on {e} {es = es'} {d = c'} now more) =
      run-latest ttl_ms es' c' d more
      ∙ ap (λ v. latest v es') (step-latest ttl_ms e c c' now)
      ∙ sym (latest-cons c.value e es')

  get-answer : (now : ℕ) (c : Cache A) → (get now c).1 ≡ answer c.value c.in_flight
  unfolding get
  get-answer now c = ground arith

  -- After any sequence of calls, deliveries, failures and invalidations, a call is served at once,
  -- and with the value delivered last, if there is one that was not invalidated since, whether it
  -- has expired or not; else it joins the load that is under way, or starts one.
  pub run-get :
      (ttl_ms : ℕ) (es : List (Event A)) (now : ℕ) (c d : Cache A)
      → Run ttl_ms es c d
      → (get now d).1 ≡ answer (latest c.value es) d.in_flight
  run-get ttl_ms es now c d run =
      get-answer now d ∙ ap (λ v. answer v d.in_flight) (run-latest ttl_ms es c d run)

  -- Calls within the lifetime of a delivered value change nothing, so they start no load.
  abbrev pub gets_all : List ℕ → Cache A → Cache A
  gets_all [] c = c
  gets_all (now ∷ times) c = gets_all times (get now c).0

  get-fresh :
      (now : ℕ) (c : Cache A) (a : A) → c.value ≡ some a → now < c.expires_at → (get now c).0 ≡ c
  unfolding get
  get-fresh now c a e fresh = ground arith

  gets_all-fresh :
      (times : List ℕ) (c : Cache A) (a : A)
      → c.value ≡ some a
      → All (λ now. now < c.expires_at) times
      → gets_all times c ≡ c
  gets_all-fresh [] c a e fresh = refl
  gets_all-fresh (now ∷ times) c a e fresh =
      ap (gets_all times) (get-fresh now c a e fresh.0) ∙ gets_all-fresh times c a e fresh.1

  delivered :
      (ttl_ms : ℕ) (now : ℕ) (a : A) (c d : Cache A)
      → step ttl_ms (cold_loads now a) c ≡ some d
      → (d.value ≡ some a) × (d.expires_at ≡ now + ttl_ms)
  unfolding step
  delivered ttl_ms now a c d run = ground arith

  -- After the first load has delivered at some time, calls made within `ttlMs` of that time change
  -- nothing, however many they are: none starts a load, and each of them would get the value.
  cold_loads-gets_all :
      (ttl_ms now : ℕ) (a : A) (times : List ℕ) (c d : Cache A)
      → step ttl_ms (cold_loads now a) c ≡ some d
      → All (λ t. t < now + ttl_ms) times
      → (gets_all times d ≡ d) × ((t : ℕ) → (get t (gets_all times d)).1 ≡ served a)
  cold_loads-gets_all ttl_ms now a times c d run early =
      let (e, limit) = delivered ttl_ms now a c d run in
      let same = gets_all-fresh times d a e (rw limit early) in
      (same, λ t. rw same (get-answer t d ∙ ap (λ v. answer v d.in_flight) e))
