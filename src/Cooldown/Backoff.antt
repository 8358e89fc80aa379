-- ===== src/Cooldown/Backoff.antt =====
-- The bounds of the wait that `registerFailure` imposes.
use freellm_gateway.Base.{ℕ, ◌-◌, ◌*◌, ◌^◌, ◌≤◌, ◌<◌, min, max, Option, or_else, arith}
use freellm_gateway.Retry.{million}
use freellm_gateway.Retry.Backoff.{round_to_zero-le}
use freellm_gateway.Cooldown.{EngineOptions, default_base, backoff, default_max, default_jitter}

-- With a draw below 1 and a jitter of at most 100%, a wait is at least a second, and at most twice
-- the cap, or a second if that is more.
backoff-bounds :
    (opts : EngineOptions) (attempts : ℕ) (hint_ms : Option ℕ) (random : ℕ)
    → random < million
    → or_else opts.jitter_pct default_jitter ≤ million
    → (1000 ≤ backoff opts attempts hint_ms random)
      × (backoff opts attempts hint_ms random ≤ max 1000 (2 * or_else opts.max_ms default_max))
unfolding backoff
backoff-bounds opts attempts hint_ms random r j = omega (
  arith,
  round_to_zero-le (exp opts attempts hint_ms) (or_else opts.jitter_pct default_jitter) random j r,
)
  where
    exp : EngineOptions → ℕ → Option ℕ → ℕ
    exp opts attempts hint_ms =
        min (or_else opts.max_ms default_max)
          (or_else hint_ms (or_else opts.base_ms default_base) * 2 ^ (attempts - 1))
