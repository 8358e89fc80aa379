-- ===== src/Keys/Quota.antt =====
-- The daily quota of a key, over any sequence of what one day brings.
use freellm_gateway.Base.{
  ℕ, ◌+◌, ◌<◌, String, true, false, not, ◌&&◌, Option, none, some, ◌≡◌, refl, sym, inl, inr, arith,
  Option-cases, Bool-cases, if◌then◌else◌, ◌==◌, eq_string, or_else, ap, leb,
}
use freellm_gateway.Base.Dict.{lookup, lookup-insert}
use freellm_gateway.Keys.{
  AuthState, DayBucket, unlimited, fresh_bucket, bucket_of, put_bucket, enforce_rpm,
  enforce_daily_requests, record_token_usage, enforce_daily_embeddings,
}

abbrev pub requests_in : Option DayBucket → ℕ
requests_in none = 0
requests_in (some b) = b.requests

-- The requests that a key has had counted today.
unfoldable pub used : String → String → AuthState → ℕ
used day key s = requests_in (bucket_of day (lookup key s.day_buckets))

pub used-put :
    (day key other : String) (b : DayBucket) (s : AuthState)
    → used day key (put_bucket other b s)
      ≡ (if other == key then requests_in (bucket_of day (some b)) else used day key s)
unfolding used
used-put day key other b s =
    rw (← lookup-insert key other b s.day_buckets)
      (elim (Bool-cases (other == key)) [ inl e ↦ rw e refl | inr e ↦ rw e refl ])

pub used-put_today :
    (day key other : String) (b : DayBucket) (s : AuthState)
    → b.day ≡ day
    → used day key (put_bucket other b s) ≡ (if other == key then b.requests else used day key s)
used-put_today day key other b s e =
    ground (arith, used-put day key other b s, eq_string.agree_iff b.day day)

pub bucket_of-day :
    (day : String) (o : Option DayBucket) (b : DayBucket) → bucket_of day o ≡ some b → b.day ≡ day
bucket_of-day day none b e = cc
bucket_of-day day (some c) b e = ground (arith, e, eq_string.agree_iff c.day day)

pub used-bucket :
    (day key : String) (s : AuthState) {o : Option DayBucket}
    → bucket_of day (lookup key s.day_buckets) ≡ o
    → used day key s ≡ requests_in o
unfolding used
used-bucket day key s e = ap requests_in e

pub used-key :
    (day : String) (s : AuthState) (other key : String)
    → (other == key) ≡ true
    → used day other s ≡ used day key s
used-key day s other key e = ap (λ (k : String). used day k s) ((eq_string.agree_iff other key).0 e)

-- One request more in a bucket of today.
pub put-counted :
    (day key other : String) (b : DayBucket) (s : AuthState)
    → b.day ≡ day
    → b.requests ≡ used day other s + 1
    → used day key (put_bucket other b s) ≡ used day key s + (if other == key then 1 else 0)
put-counted day key other b s e more = elim (Bool-cases (other == key)) [
  | inl same ↦ ground (arith, used-put_today day key other b s e, used-key day s other key same)
  | inr apart ↦ ground (arith, used-put_today day key other b s e)
]

-- A bucket of today with as many requests as before.
pub put-same :
    (day key other : String) (b : DayBucket) (s : AuthState)
    → b.day ≡ day
    → b.requests ≡ used day other s
    → used day key (put_bucket other b s) ≡ used day key s
put-same day key other b s e same = elim (Bool-cases (other == key)) [
  | inl eq ↦ ground (arith, used-put_today day key other b s e, used-key day s other key eq)
  | inr apart ↦ ground (arith, used-put_today day key other b s e)
]

-- What counts no request.
abbrev pub Keeps : String → String → (AuthState → AuthState) → Type 0
Keeps day key f = (s : AuthState) → used day key (f s) ≡ used day key s

pub record_token_usage-Keeps :
    (day key other : String) (tokens : ℕ) → Keeps day key (record_token_usage other tokens day)
unfolding record_token_usage
record_token_usage-Keeps day key other tokens s =
    elim (Option-cases (bucket_of day (lookup other s.day_buckets))) [
      | inl e ↦
          rw (e, record_token_usage)
            (put-same day key other _ s refl (sym (used-bucket day other s e)))
      | inr (b, e) ↦
          rw (e, record_token_usage)
            (put-same day key other _ s (bucket_of-day day _ b e) (sym (used-bucket day other s e)))
    ]

pub enforce_daily_embeddings-Keeps :
    (day key other : String) (limit : Option ℕ)
    → Keeps day key (λ s. (enforce_daily_embeddings other limit day s).0)
unfolding enforce_daily_embeddings
enforce_daily_embeddings-Keeps day key other limit s = elim (Bool-cases (unlimited limit)) [
  | inl free ↦ rw free refl
  | inr e0 ↦ rw e0 (elim (Option-cases (bucket_of day (lookup other s.day_buckets))) [
    | inl e ↦ rw e (put-same day key other _ s refl (sym (used-bucket day other s e)))
    | inr (b, e) ↦ rw e (elim (Bool-cases (leb (or_else limit 0) b.embeddings)) [
      | inl full ↦ rw full refl
      | inr free ↦
          rw free
            (put-same day key other _ s (bucket_of-day day _ b e) (sym (used-bucket day other s e)))
    ])
  ])
]

-- A request that the daily limit lets pass is counted, for its own key, and was below the limit.
pub enforce_daily_requests-used :
    (day key other : String) (limit : Option ℕ) (s : AuthState)
    → let r = enforce_daily_requests other limit day s in
      used day key r.0
      ≡ used day key s + (if other == key && not (unlimited limit) && r.1 then 1 else 0)
unfolding enforce_daily_requests
enforce_daily_requests-used day key other limit s = elim (Bool-cases (unlimited limit)) [
  | inl free ↦ rw free (ground arith)
  | inr e0 ↦ rw e0 (elim (Option-cases (bucket_of day (lookup other s.day_buckets))) [
    | inl e ↦ rw e (
        ground (
          arith,
          put-counted day key other (fresh_bucket day 1 0 0) s refl
              (omega (arith, used-bucket day other s e)),
        ))
    | inr (b, e) ↦ rw e (elim (Bool-cases (leb (or_else limit 0) b.requests)) [
      | inl full ↦ rw full (ground arith)
      | inr free ↦ rw free (
          ground (
            arith,
            put-counted day key other (record b { requests = b.requests + 1 }) s
                (bucket_of-day day _ b e) (omega (arith, used-bucket day other s e)),
          ))
    ])
  ])
]

pub enforce_rpm-Keeps :
    (day key other : String) (limit : Option ℕ) (now : ℕ)
    → Keeps day key (λ s. (enforce_rpm other limit now s).0)
unfolding enforce_rpm used
enforce_rpm-Keeps day key other limit now s = ground arith

pub enforce_daily_requests-below :
    (day key : String) (limit : Option ℕ) (s : AuthState)
    → unlimited limit ≡ false
    → (enforce_daily_requests key limit day s).1 ≡ true
    → used day key s < or_else limit 0
unfolding enforce_daily_requests
enforce_daily_requests-below day key limit s e0 ok =
    elim (Option-cases (bucket_of day (lookup key s.day_buckets))) [
      | inl e ↦ ground (arith, used-bucket day key s e, e0)
      | inr (b, e) ↦ ground (arith, used-bucket day key s e, rw (e0, e) at ok)
    ]
