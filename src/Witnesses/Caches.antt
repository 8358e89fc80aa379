-- ===== src/Witnesses/Caches.antt =====
-- A cache of numbers: a cold load that delivers 7 at 100, and a refresh behind it.
use freellm_gateway.Base.{ℕ, ◌≤◌, ◌<◌, true, some, [], ◌∷◌, ◌≡◌, ◌≢◌, ◌⊎◌, refl}
use freellm_gateway.Cache.{
  Cache, new_cache, filled, get, served, joined, gets, cold_loads, cold_caught, step, Run, done,
  then_on,
}
use freellm_gateway.Cache.Loads.{run-cold, run-joined}
use freellm_gateway.Cache.Reads.{run-get}

abbrev loading : Cache ℕ
loading = record (new_cache {A = ℕ}) { in_flight = true; cold = 1 }

abbrev expired : Cache ℕ
expired = record (filled 5000 100 7 loading) { refreshing = true; refresh = 1 }

first : Run {A = ℕ} 5000 (gets 0 ∷ []) new_cache loading
unfolding step get
first = then_on refl done

busy : Run {A = ℕ} 5000 (gets 0 ∷ cold_loads 100 7 ∷ gets 6000 ∷ []) new_cache expired
unfolding step get
busy =
    then_on {d = loading} refl
      (then_on {d = filled 5000 100 7 loading} refl (then_on {d = expired} refl done))

run-cold_example : (loading.cold ≤ 1) × (0 < loading.cold → loading.in_flight ≡ true)
run-cold_example = run-cold 5000 (gets 0 ∷ []) loading first

run-joined_example :
    ((d : Cache ℕ) × (step 5000 (cold_loads 100 7) loading ≡ some d) × ((get 100 d).1 ≡ served 7))
    ⊎ ((d : Cache ℕ) × (step 5000 cold_caught loading ≡ some d) × ((get 100 d).1 ≢ joined))
run-joined_example = run-joined 5000 (gets 0 ∷ []) loading 100 7 first refl

run-get_example : (get 6001 expired).1 ≡ served 7
run-get_example =
    run-get 5000 (gets 0 ∷ cold_loads 100 7 ∷ gets 6000 ∷ []) 6001 new_cache expired busy
