-- ===== src/Retry/Backoff.antt =====
-- Bounds on the waits between attempts.
use freellm_gateway.Base.{
  ℕ, suc, ◌+◌, ◌-◌, ◌*◌, ◌/◌, ◌^◌, ◌≤◌, ◌<◌, min, max, ◌≡◌, refl, arith, List, [], ◌∷◌, length,
  Option, zero, or_else, ap,
}
use freellm_gateway.Retry.Stored.{get_policy-IsValid}
use native.Mathlib.Nat.{pow-suc}
use freellm_gateway.Retry.{
  RetryPolicy, million, compute_base_backoff, compute_backoff, round_to_zero, max_attempts_limit,
}
use freellm_gateway.Retry.Settings.{
  get_policy, BackoffPreview, preview_backoff, preview_from, preview_backoffs, Row,
}

-- The wait before jitter never passes the policy's cap.
pub compute_base_backoff-le :
    (attempt : ℕ) (p : RetryPolicy) → compute_base_backoff attempt p ≤ p.max_backoff_ms
unfolding compute_base_backoff
compute_base_backoff-le attempt p = ground arith

pow-mono_step : (b k : ℕ) → b * 2 ^ k ≤ b * 2 ^ suc k
pow-mono_step b k = rw (pow-suc 2 k) (omega arith)

-- The wait before jitter never shrinks from one attempt to the next.
pub compute_base_backoff_mono :
    (attempt : ℕ) (p : RetryPolicy)
    → compute_base_backoff attempt p ≤ compute_base_backoff (suc attempt) p
unfolding compute_base_backoff
compute_base_backoff_mono zero p = omega arith
compute_base_backoff_mono (suc n) p =
    rw (suc-sub n, suc-sub (suc n)) (ground (arith, pow-mono_step p.initial_backoff_ms n))
  where
    suc-sub : (m : ℕ) → suc m - 1 ≡ m
    suc-sub m = omega arith

mul-le : (a b c : ℕ) → b ≤ c → a * b ≤ a * c
mul-le a b c h = grind arith

round_between :
    (base span drawn : ℕ)
    → span ≤ base * million
    → drawn ≤ span * million
    → (round_to_zero (base * million) span million
        ≤ round_to_zero (base * million * million + 2 * drawn) (span * million) (million * million))
      × (round_to_zero (base * million * million + 2 * drawn) (span * million) (million * million)
          ≤ (base * million + span + million / 2) / million)
round_between base span drawn h k = omega arith

-- Every wait that is drawn lies between the two bounds that the preview shows.
preview_backoff-bounds :
    (p : RetryPolicy) (i random : ℕ)
    → p.jitter_ratio ≤ million
    → random < million
    → ((preview_backoff p i random).with_jitter_min_ms ≤ (preview_backoff p i random).sample_ms)
      × ((preview_backoff p i random).sample_ms ≤ (preview_backoff p i random).with_jitter_max_ms)
unfolding preview_backoff compute_backoff
preview_backoff-bounds p i random h k =
    rw regroup
      (round_between base span (span * random) (mul-le base _ _ h) (mul-le span _ _ (omega arith)))
  where
    base : ℕ
    base = compute_base_backoff i p

    span : ℕ
    span = base * p.jitter_ratio

    regroup : span * (2 * random) ≡ 2 * (span * random)
    regroup = omega arith

-- The row of attempt number `i`, from the first to the last, in order.
abbrev ShowsFrom : RetryPolicy → ℕ → List BackoffPreview → Type 0
ShowsFrom p i [] = Unit
ShowsFrom p i (b ∷ bs) =
    (b.attempt ≡ i)
    × (b.base_ms ≡ compute_base_backoff i p)
    × (b.with_jitter_min_ms ≤ b.sample_ms)
    × (b.sample_ms ≤ b.with_jitter_max_ms)
    × ShowsFrom p (suc i) bs

preview_from-ShowsFrom :
    (p : RetryPolicy) (random : ℕ → ℕ) (i n : ℕ)
    → p.jitter_ratio ≤ million
    → ((j : ℕ) → random j < million)
    → ShowsFrom p i (preview_from p random i n) × (length (preview_from p random i n) ≡ n)
unfolding preview_from
preview_from-ShowsFrom p random i zero h k = (tt, refl)
preview_from-ShowsFrom p random i (suc n) h k =
    let (lo, hi) = preview_backoff-bounds p i (random i) h (k i) in
    let (shows, count) = preview_from-ShowsFrom p random (suc i) n h k in
    ((unfold preview_backoff in refl, unfold preview_backoff in refl, lo, hi, shows), ap suc count)

-- The preview of any stored policy has one row for each attempt 1, 2, … up to the number asked for
-- (or the policy's), held to 1..10; each row shows the base wait of that attempt, and its sample
-- lies between its two bounds, provided that the random draws are below 1.
preview_backoffs-ShowsFrom :
    (row : Row) (asked : Option ℕ) (random : ℕ → ℕ)
    → ((j : ℕ) → random j < million)
    → ShowsFrom (get_policy row) 1 (preview_backoffs row asked random)
      × (length (preview_backoffs row asked random)
          ≡ min (max (or_else asked (get_policy row).max_attempts) 1) max_attempts_limit)
unfolding preview_backoffs
preview_backoffs-ShowsFrom row asked random k =
    preview_from-ShowsFrom (get_policy row) random 1 _ (get_policy-IsValid row).ratio_bound k

-- With a ratio of at most 1 and a draw below 1, jitter at most doubles a wait.
pub round_to_zero-le :
    (base ratio random : ℕ)
    → ratio ≤ million
    → random < million
    → round_to_zero
        (base * million * million + base * ratio * (2 * random))
        (base * ratio * million)
        (million * million)
      ≤ 2 * base
round_to_zero-le base ratio random h k =
    omega (arith, mul-le base ratio million h, mul-le (base * ratio) random million (omega arith))
