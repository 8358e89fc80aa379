-- ===== src/Alerts/Usage/Spaced.antt =====
-- The time between two alerts on one metric of one key, over any number of cycles.
use freellm_gateway.Base.{
  true≢false, ℕ, ◌+◌, ◌≤◌, ◌<◌, All, ==-refl, String, true, false, Option, List, [], ◌∷◌, ◌++◌,
  filter, ◌≡◌, refl, sym, ◌∙◌, ap, subst, arith, ◌==◌, eq_string, if◌then◌else◌, ltb, or_else,
  Bool-cases, inl, inr, if_elim,
}
use freellm_gateway.Base.Dict.{lookup, insert, lookup-insert}
use freellm_gateway.Number.{Number}
use freellm_gateway.Alerts.Usage.{
  Metric, requests, tokens, cache_key, AlertCache, KeyRow, LogRow, UsageAlert, Options,
  requests_today, tokens_today, is_watched, is_close, maybe_emit, check_metric, check_key,
  check_keys, check_all,
}

-- Each time is at least `gap` after the one before it, the first after `last`.
abbrev pub Spaced : ℕ → ℕ → List ℕ → Type 0
Spaced gap last [] = Unit
Spaced gap last (t ∷ ts) = (last + gap ≤ t) × Spaced gap t ts

abbrev last_of : ℕ → List ℕ → ℕ
last_of last [] = last
last_of last (t ∷ ts) = last_of t ts

Spaced-append :
    (gap last : ℕ) (xs ys : List ℕ)
    → Spaced gap last xs
    → Spaced gap (last_of last xs) ys
    → Spaced gap last (xs ++ ys)
Spaced-append gap last [] ys h k = k
Spaced-append gap last (x ∷ xs) ys h k = (h.0, Spaced-append gap x xs ys h.1 k)

last_of-append :
    (last : ℕ) (xs ys : List ℕ) → last_of last (xs ++ ys) ≡ last_of (last_of last xs) ys
last_of-append last [] ys = refl
last_of-append last (x ∷ xs) ys = last_of-append x xs ys

-- The times of the alerts on one metric of one key.
abbrev pub times_of : String → List UsageAlert → List ℕ
times_of key [] = []
times_of key (a ∷ events) =
    let rest = times_of key events in
    if cache_key a.virtual_key_id a.metric == key then a.triggered_at ∷ rest else rest

times_of-append :
    (key : String) (xs ys : List UsageAlert)
    → times_of key (xs ++ ys) ≡ times_of key xs ++ times_of key ys
times_of-append key [] ys = refl
times_of-append key (a ∷ xs) ys = elim (Bool-cases (cache_key a.virtual_key_id a.metric == key)) [
  | inl its ↦ rw its (ap (λ ts. a.triggered_at ∷ ts) (times_of-append key xs ys))
  | inr other ↦ rw other (times_of-append key xs ys)
]

abbrev pub last_alert : String → AlertCache → ℕ
last_alert key cache = or_else (lookup key cache) 0

-- Some code's alerts are spaced from what the cache holds, which it keeps up to date.
record Keeps (gap : ℕ) (key : String) (cache : AlertCache) (r : List UsageAlert × AlertCache)
    : Type 0 where
  spaced : Spaced gap (last_alert key cache) (times_of key r.0)
  cached : last_alert key r.1 ≡ last_of (last_alert key cache) (times_of key r.0)

Keeps-append :
    (gap : ℕ) (key : String) (cache : AlertCache) (r q : List UsageAlert × AlertCache)
    → Keeps gap key cache r
    → Keeps gap key r.1 q
    → Keeps gap key cache (r.0 ++ q.0, q.1)
Keeps-append gap key cache r q h k =
    let times = times_of-append key r.0 q.0 in
    record {
      spaced = rw times (
          Spaced-append gap _ (times_of key r.0) (times_of key q.0) h.spaced
            (subst (λ l. Spaced gap l (times_of key q.0)) h.cached k.spaced));
      cached = rw times (
          k.cached
          ∙ ap (λ l. last_of l (times_of key q.0)) h.cached
          ∙ sym (last_of-append (last_alert key cache) (times_of key r.0) (times_of key q.0)));
    }

Keeps-silent : (gap : ℕ) (key : String) (cache : AlertCache) → Keeps gap key cache ([], cache)
Keeps-silent gap key cache = record { spaced = tt; cached = refl }

last_alert-insert :
    (key own : String) (now : ℕ) (cache : AlertCache)
    → last_alert key (insert own now cache) ≡ (if own == key then now else last_alert key cache)
last_alert-insert key own now cache =
    rw (sym (lookup-insert key own now cache))
      (elim (Bool-cases (own == key)) [ inl its ↦ rw its refl | inr other ↦ rw other refl ])

Keeps-emitted :
    (gap : ℕ) (key : String) (cache : AlertCache) (a : UsageAlert)
    → let own = cache_key a.virtual_key_id a.metric in
      last_alert own cache + gap ≤ a.triggered_at
      → Keeps gap key cache (a ∷ [], insert own a.triggered_at cache)
Keeps-emitted gap key cache a old =
    let own = cache_key a.virtual_key_id a.metric in
    let later = last_alert-insert key own a.triggered_at cache in
    elim (Bool-cases (own == key)) [
      | inl its ↦ record {
        spaced = rw its (
          subst (λ k. last_alert k cache + gap ≤ a.triggered_at)
              ((eq_string.agree_iff own key).0 its) old,
          tt,
        );
        cached = later ∙ rw its refl;
      }
      | inr other ↦ record { spaced = rw other tt; cached = later ∙ rw other refl }
    ]

module _ (N : Number) (opts : Options N) where
  maybe_emit-Keeps :
      (now : ℕ) (vk : KeyRow) (metric : Metric) (consumed limit : ℕ) (key : String)
      (cache : AlertCache)
      → Keeps opts.alert_cooldown_ms key cache
          (maybe_emit N opts now vk metric consumed limit cache)
  unfolding maybe_emit
  maybe_emit-Keeps now vk metric consumed limit key cache =
      if_elim (Keeps opts.alert_cooldown_ms key cache)
        (ltb now (last_alert (cache_key vk.id metric) cache + opts.alert_cooldown_ms))
        (λ young. Keeps-silent opts.alert_cooldown_ms key cache)
        λ old. Keeps-emitted opts.alert_cooldown_ms key cache _ (ground (arith, old))

  check_metric-Keeps :
      (now : ℕ) (vk : KeyRow) (metric : Metric) (consumed : ℕ) (limit : Option ℕ) (key : String)
      (cache : AlertCache)
      → Keeps opts.alert_cooldown_ms key cache
          (check_metric N opts now vk metric consumed limit cache)
  unfolding check_metric
  check_metric-Keeps now vk metric consumed limit key cache =
      if_elim (Keeps opts.alert_cooldown_ms key cache) (is_close N opts consumed limit)
        (λ near. maybe_emit-Keeps now vk metric consumed (or_else limit 0) key cache)
        λ far. Keeps-silent opts.alert_cooldown_ms key cache

  check_keys-Keeps :
      (now : ℕ) (logs : List LogRow) (vks : List KeyRow) (key : String) (cache : AlertCache)
      → Keeps opts.alert_cooldown_ms key cache (check_keys N opts now logs vks cache)
  unfolding check_keys check_key
  check_keys-Keeps now logs [] key cache = Keeps-silent opts.alert_cooldown_ms key cache
  check_keys-Keeps now logs (vk ∷ vks) key cache =
      let gap = opts.alert_cooldown_ms in
      let first =
        check_metric N opts now vk requests (requests_today now vk.id logs) vk.max_requests_per_day
          cache in
      let second =
        check_metric N opts now vk tokens (tokens_today now vk.id logs) vk.max_tokens_per_day
          first.1 in
      Keeps-append gap key cache (check_key N opts now logs vk cache)
        (check_keys N opts now logs vks second.1)
        (Keeps-append gap key cache first second
          (check_metric-Keeps now vk requests (requests_today now vk.id logs)
            vk.max_requests_per_day key cache)
          (check_metric-Keeps now vk tokens (tokens_today now vk.id logs) vk.max_tokens_per_day key
            first.1))
        (check_keys-Keeps now logs vks key second.1)

  -- The cycles in turn: the time of each, the logs and the keys that it reads.
  unfoldable pub cycles :
      List (ℕ × List LogRow × List KeyRow) → AlertCache → List UsageAlert × AlertCache
  cycles [] cache = ([], cache)
  cycles ((now, logs, table) ∷ later) cache =
      let (first, cache') = check_all N opts now logs table cache in
      let (rest, cache'') = cycles later cache' in (first ++ rest, cache'')

  cycles-Keeps :
      (runs : List (ℕ × List LogRow × List KeyRow)) (key : String) (cache : AlertCache)
      → Keeps opts.alert_cooldown_ms key cache (cycles runs cache)
  unfolding cycles check_all
  cycles-Keeps [] key cache = Keeps-silent opts.alert_cooldown_ms key cache
  cycles-Keeps ((now, logs, table) ∷ later) key cache =
      let first = check_all N opts now logs table cache in
      Keeps-append opts.alert_cooldown_ms key cache first (cycles later first.1)
        (check_keys-Keeps now logs (filter is_watched table) key cache)
        (cycles-Keeps later key first.1)

  -- Whatever the cycles find, and at whatever times they run, two alerts on one metric of one key
  -- are never less than the cooldown apart, and the first is that long after the one in the cache.
  pub cycles-Spaced :
      (runs : List (ℕ × List LogRow × List KeyRow)) (key : String) (cache : AlertCache)
      → Spaced opts.alert_cooldown_ms (last_alert key cache) (times_of key (cycles runs cache).0)
  cycles-Spaced runs key cache = (cycles-Keeps runs key cache).spaced

  -- A key has an alert on a metric that is younger than the cooldown.
  abbrev pub IsRecent : ℕ → String → AlertCache → Type 0
  IsRecent now key cache = now < last_alert key cache + opts.alert_cooldown_ms

  module _ (positive : 0 < opts.alert_cooldown_ms) (now : ℕ) where
    abbrev Recent : String → List UsageAlert × AlertCache → Type 0
    Recent key r = IsRecent now key r.1

    insert-IsRecent :
        (key own : String) (cache : AlertCache)
        → ((own == key) ≡ false → IsRecent now key cache)
        → IsRecent now key (insert own now cache)
    insert-IsRecent key own cache before = rw (last_alert-insert key own now cache) (
        if_elim (λ l. now < l + opts.alert_cooldown_ms) (own == key)
          (λ its. omega (arith, positive)) before)

    check_metric-kept :
        (vk : KeyRow) (metric : Metric) (consumed : ℕ) (limit : Option ℕ) (key : String)
        (cache : AlertCache)
        → IsRecent now key cache
        → Recent key (check_metric N opts now vk metric consumed limit cache)
    unfolding check_metric maybe_emit
    check_metric-kept vk metric consumed limit key cache before =
        if_elim (Recent key) (is_close N opts consumed limit)
          (λ near.
            if_elim (Recent key)
              (ltb now (last_alert (cache_key vk.id metric) cache + opts.alert_cooldown_ms))
              (λ young. before)
              (λ old. insert-IsRecent key (cache_key vk.id metric) cache (λ other. before)))
          (λ far. before)

    check_metric-due :
        (vk : KeyRow) (metric : Metric) (consumed : ℕ) (limit : Option ℕ) (cache : AlertCache)
        → is_close N opts consumed limit ≡ true
        → Recent (cache_key vk.id metric) (check_metric N opts now vk metric consumed limit cache)
    unfolding check_metric maybe_emit
    check_metric-due vk metric consumed limit cache near =
        let own = cache_key vk.id metric in
        if_elim (Recent own) (is_close N opts consumed limit)
          (λ _.
            if_elim (Recent own) (ltb now (last_alert own cache + opts.alert_cooldown_ms))
              (λ young. ground (arith, young))
              (λ old.
                insert-IsRecent own own cache
                  (λ other. absurd (true≢false (sym (==-refl own) ∙ other)))))
          (λ far. absurd (true≢false (sym near ∙ far)))

    module _ (logs : List LogRow) where
      check_keys-kept :
          (vks : List KeyRow) (key : String) (cache : AlertCache)
          → IsRecent now key cache
          → Recent key (check_keys N opts now logs vks cache)
      unfolding check_keys check_key
      check_keys-kept [] key cache before = before
      check_keys-kept (vk ∷ vks) key cache before =
          let first =
            check_metric N opts now vk requests (requests_today now vk.id logs)
              vk.max_requests_per_day cache in
          let second =
            check_metric N opts now vk tokens (tokens_today now vk.id logs) vk.max_tokens_per_day
              first.1 in
          check_keys-kept vks key second.1 (
            check_metric-kept vk tokens (tokens_today now vk.id logs) vk.max_tokens_per_day key
              first.1
              (check_metric-kept vk requests (requests_today now vk.id logs) vk.max_requests_per_day
                key cache before))

      -- What a cycle has to see to: an alert for each limit that a key is close to.
      pub record IsWarned (cache : AlertCache) (vk : KeyRow) : Type 0 where
        pub of_requests :
            is_close N opts (requests_today now vk.id logs) vk.max_requests_per_day ≡ true
            → IsRecent now (cache_key vk.id requests) cache
        pub of_tokens :
            is_close N opts (tokens_today now vk.id logs) vk.max_tokens_per_day ≡ true
            → IsRecent now (cache_key vk.id tokens) cache

      check_keys-IsWarned :
          (vks : List KeyRow) (cache : AlertCache)
          → All (IsWarned (check_keys N opts now logs vks cache).1) vks
      unfolding check_keys check_key
      check_keys-IsWarned [] cache = tt
      check_keys-IsWarned (vk ∷ vks) cache =
          let first =
            check_metric N opts now vk requests (requests_today now vk.id logs)
              vk.max_requests_per_day cache in
          let second =
            check_metric N opts now vk tokens (tokens_today now vk.id logs) vk.max_tokens_per_day
              first.1 in
          (
            record {
              of_requests = λ near. check_keys-kept vks (cache_key vk.id requests) second.1 (
                  check_metric-kept vk tokens (tokens_today now vk.id logs) vk.max_tokens_per_day
                    (cache_key vk.id requests) first.1
                    (check_metric-due vk requests (requests_today now vk.id logs)
                      vk.max_requests_per_day cache near));
              of_tokens = λ near. check_keys-kept vks (cache_key vk.id tokens) second.1 (
                  check_metric-due vk tokens (tokens_today now vk.id logs) vk.max_tokens_per_day
                    first.1 near);
            },
            check_keys-IsWarned vks second.1,
          )

      -- After a cycle, every watched key that is close to a limit has an alert on that metric which
      -- is younger than the cooldown, from this cycle or from an earlier one.
      check_all-IsWarned :
          (table : List KeyRow) (cache : AlertCache)
          → All (IsWarned (check_all N opts now logs table cache).1) (filter is_watched table)
      unfolding check_all
      check_all-IsWarned table cache = check_keys-IsWarned (filter is_watched table) cache
