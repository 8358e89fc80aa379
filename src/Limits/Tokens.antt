-- ===== src/Limits/Tokens.antt =====
-- The count of a demo key's tokens.
use freellm_gateway.Base.{
  ℕ, ◌+◌, ◌*◌, ◌<◌, String, false, not, ◌&&◌, Option, some, ◌≡◌, refl, arith, leb, ◌==◌, eq_nat,
}
use freellm_gateway.Base.Dict.{lookup-insert_self}
use freellm_gateway.Limits.{
  Value, count, Store, gc, get, set, used_tokens, token_key, record_demo_token_usage,
}

-- The tokens that the store counts for a key on a day.
abbrev pub used : String → String → ℕ → Store → Option ℕ
used today key now s = used_tokens (get (token_key today key) now s).1

get-set :
    (key : String) (value : Value) (now later : ℕ) (s : Store)
    → later < now + 86400 * 1000
    → (get key later (set key value (some 86400) now s)).1 ≡ some value
unfolding get gc set
get-set key value now later s h = rw (lookup-insert_self key key _ s refl, get, gc, fresh) refl
  where
    fresh : (not (now + 86400 * 1000 == 0) && leb (now + 86400 * 1000) later) ≡ false
    fresh = ground arith

-- Reporting a positive number of tokens adds exactly that number to what the key has used, and the
-- sum can be read until a day has passed.
pub used-record_demo_token_usage :
    (today key : String) (tokens now later n : ℕ) (s : Store)
    → (tokens == 0) ≡ false
    → used today key now s ≡ some n
    → later < now + 86400 * 1000
    → used today key later (record_demo_token_usage today key tokens now s) ≡ some (n + tokens)
unfolding record_demo_token_usage
used-record_demo_token_usage today key tokens now later n s positive before h =
    rw (positive, before, get-set (token_key today key) (count (n + tokens)) now later _ h) refl
