-- ===== src/Limits/Window.antt =====
-- How many calls a window admits.
use freellm_gateway.Base.{
  ℕ, suc, ◌+◌, ◌-◌, ◌*◌, ◌≤◌, ◌<◌, min, String, Bool, true, false, not, ◌&&◌, none, some, List, [],
  ◌∷◌, ◌≡◌, refl, arith, All, length, leb, ltb, if◌then◌else◌, ◌==◌, eq_string, eq_nat, inl, inr,
  Bool-cases,
}
use freellm_gateway.Base.Dict.{lookup, insert, lookup-insert_self}
use freellm_gateway.Limits.{
  count, Store, gc, incr_and_expire, ip_key, enforce_ip_rate_limit, OrgRpmBucket, enforce_org_rpm,
}

abbrev pub admitted : List Bool → ℕ
admitted [] = 0
admitted (b ∷ bs) = if b then suc (admitted bs) else admitted bs

-- Calls from one address at the given times.
unfoldable pub call_all : String → String → ℕ → ℕ → List ℕ → Store → List Bool
call_all namespace ip limit window [] s = []
call_all namespace ip limit window (t ∷ ts) s =
    let (s', b) = enforce_ip_rate_limit namespace ip limit window t s in
    b ∷ call_all namespace ip limit window ts s'

incr_live :
    (key : String) (window now n e : ℕ) (s : Store)
    → lookup key s ≡ some (record { value = count n; expires_at = e })
    → now < e
    → ((incr_and_expire key window now s).1 ≡ some (n + 1))
      × (lookup key (incr_and_expire key window now s).0
          ≡ some (record { value = count (n + 1); expires_at = e }))
unfolding incr_and_expire gc
incr_live key window now n e s found h =
    rw (found, incr_and_expire, gc, alive) (refl, lookup-insert_self key key _ _ refl)
  where
    alive : (not (e == 0) && leb e now) ≡ false
    alive = ground arith

incr_fresh :
    (key : String) (window now : ℕ) (s : Store)
    → (gc key now s).1 ≡ none
    → ((incr_and_expire key window now s).1 ≡ some 1)
      × (lookup key (incr_and_expire key window now s).0
          ≡ some (record { value = count 1; expires_at = now + window * 1000 }))
unfolding incr_and_expire
incr_fresh key window now s free =
    rw (free, incr_and_expire) (refl, lookup-insert_self key key _ _ refl)

call_all_live :
    (namespace ip : String) (limit window n e : ℕ) (ts : List ℕ) (s : Store)
    → (ip == "") ≡ false
    → (ip == "unknown") ≡ false
    → lookup (ip_key namespace ip) s ≡ some (record { value = count n; expires_at = e })
    → All (λ t. t < e) ts
    → admitted (call_all namespace ip limit window ts s) ≡ min (limit - n) (length ts)
unfolding call_all enforce_ip_rate_limit
call_all_live namespace ip limit window n e [] s known named found h = omega arith
call_all_live namespace ip limit window n e (t ∷ ts) s known named found h =
    let (number, kept) = incr_live (ip_key namespace ip) window t n e s found h.0 in
    let rest = call_all_live namespace ip limit window (n + 1) e ts _ known named kept h.1 in
    rw (known, named, number) (ground (arith, rest))

-- From an address that is known, and that has no live counter, a window that starts with a call
-- admits exactly the limit: of the calls from its start on that come before its end, in whatever
-- number, as many are admitted as there are, but no more than the limit.
pub call_all-admitted :
    (namespace ip : String) (limit window t : ℕ) (ts : List ℕ) (s : Store)
    → (ip == "") ≡ false
    → (ip == "unknown") ≡ false
    → (gc (ip_key namespace ip) t s).1 ≡ none
    → All (λ u. u < t + window * 1000) ts
    → admitted (call_all namespace ip limit window (t ∷ ts) s) ≡ min limit (suc (length ts))
unfolding call_all enforce_ip_rate_limit
call_all-admitted namespace ip limit window t ts s known named free h =
    let (number, kept) = incr_fresh (ip_key namespace ip) window t s free in
    let rest =
      call_all_live namespace ip limit window 1 (t + window * 1000) ts _ known named kept h in
    rw (known, named, number) (ground (arith, rest))

-- Calls of one organization at the given times.
unfoldable pub org_call_all : String → ℕ → List ℕ → List (String × OrgRpmBucket) → List Bool
org_call_all id limit [] buckets = []
org_call_all id limit (t ∷ ts) buckets =
    let (buckets', b) = enforce_org_rpm (some id) (some limit) t buckets in
    b ∷ org_call_all id limit ts buckets'

enforce_org_rpm_open :
    (id : String) (limit now start n : ℕ) (buckets : List (String × OrgRpmBucket))
    → (id == "") ≡ false
    → (limit == 0) ≡ false
    → lookup id buckets ≡ some (record { window_start = start; calls = n })
    → now ≤ start + 60000
    → ((enforce_org_rpm (some id) (some limit) now buckets).1 ≡ ltb n limit)
      × (lookup id (enforce_org_rpm (some id) (some limit) now buckets).0
          ≡ some (record { window_start = start; calls = if ltb n limit then n + 1 else n }))
unfolding enforce_org_rpm
enforce_org_rpm_open id limit now start n buckets named limited found h =
    elim (Bool-cases (leb limit n)) [
      | inl full ↦
          rw (named, limited, found, enforce_org_rpm, early, full)
            (ground arith, rw (below full) found)
      | inr room ↦
          rw (named, limited, found, enforce_org_rpm, early, room)
            (ground arith, rw (above room) (lookup-insert_self id id _ buckets refl))
    ]
  where
    early : ltb 60000 (now - start) ≡ false
    early = ground arith

    below : leb limit n ≡ true → ltb n limit ≡ false
    below k = ground arith

    above : leb limit n ≡ false → ltb n limit ≡ true
    above k = ground arith

org_call_all_open :
    (id : String) (limit start n : ℕ) (ts : List ℕ) (buckets : List (String × OrgRpmBucket))
    → (id == "") ≡ false
    → (limit == 0) ≡ false
    → lookup id buckets ≡ some (record { window_start = start; calls = n })
    → All (λ t. t ≤ start + 60000) ts
    → admitted (org_call_all id limit ts buckets) ≡ min (limit - n) (length ts)
unfolding org_call_all
org_call_all_open id limit start n [] buckets named limited found h = omega arith
org_call_all_open id limit start n (t ∷ ts) buckets named limited found h =
    let (answer, kept) = enforce_org_rpm_open id limit t start n buckets named limited found h.0 in
    let rest =
      org_call_all_open id limit start (if ltb n limit then n + 1 else n) ts _ named limited kept
        h.1 in
    rw (answer, rest) (ground arith)

-- The synchronous limit of an organization with an id and a limit above 0 admits, in the minute
-- from the first call of an organization that has no bucket yet, as many calls as there are, but
-- no more than the limit.
pub org_call_all-admitted :
    (id : String) (limit t : ℕ) (ts : List ℕ) (buckets : List (String × OrgRpmBucket))
    → (id == "") ≡ false
    → (limit == 0) ≡ false
    → lookup id buckets ≡ none
    → All (λ u. u ≤ t + 60000) ts
    → admitted (org_call_all id limit (t ∷ ts) buckets) ≡ min limit (suc (length ts))
unfolding org_call_all
org_call_all-admitted id limit t ts buckets named limited free h =
    let rest =
      org_call_all_open id limit t 1 ts (insert id (record { window_start = t; calls = 1 }) buckets)
        named limited (lookup-insert_self id id _ buckets refl) h in
    rw (opened, rest) (ground arith)
  where
    opened :
        enforce_org_rpm (some id) (some limit) t buckets
        ≡ (insert id (record { window_start = t; calls = 1 }) buckets, true)
    opened = unfold enforce_org_rpm in rw (named, limited, free)
