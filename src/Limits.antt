-- ===== src/Limits.antt =====
-- Rate limits: apps/api/src/lib/kv-store.ts with its in-memory backend, and the limits over it of
-- ip-rate-limit.ts, per-org-limit.ts and demo-limit.ts in the same folder. Window and
-- Tokens are proofs.
-- A stored text is `count n` where it is the numeral n, and `text s` where `parseInt` gives NaN.
-- Times are milliseconds; a number is `none` where the source computes NaN.
pub mod Window
pub mod Tokens
use Prim.Native.String.{◌++◌}
use mathlib.Core.Option
use freellm_gateway.Base.{
  ℕ, ◌+◌, ◌-◌, ◌*◌, String, Bool, true, false, not, ◌&&◌, ◌||◌, Option, none, some, List, ltb, leb,
  ◌==◌, eq_nat, eq_string, if◌then◌else◌, or_else,
}
use freellm_gateway.Base.Dict.{lookup, insert, delete}

pub data Value : Type 0 where
  count : ℕ → Value
  text : String → Value

-- `expires_at` is 0 for an entry that does not expire.
pub record MemoryEntry : Type 0 where
  pub value : Value
  pub expires_at : ℕ

abbrev pub Store : Type 0
Store = List (String × MemoryEntry)

abbrev pub is_over : ℕ → MemoryEntry → Bool
is_over now entry = not (entry.expires_at == 0) && leb entry.expires_at now

unfoldable pub gc : String → ℕ → Store → Store × Option MemoryEntry
gc key now s = elim (lookup key s) [
  | none ↦ (s, none)
  | some entry ↦ if is_over now entry then (delete key s, none) else (s, some entry)
]

unfoldable pub get : String → ℕ → Store → Store × Option Value
get key now s = let (s', entry) = gc key now s in (s', Option.map (λ e. e.value) entry)

unfoldable pub set : String → Value → Option ℕ → ℕ → Store → Store
set key value ttl_seconds now s =
    let ttl = or_else ttl_seconds 0 in
    insert key (record { value = value; expires_at = if ltb 0 ttl then now + ttl * 1000 else 0 }) s

-- `Number.parseInt(value, 10)`, and `String(n)`.
abbrev pub parse_int : Value → Option ℕ
parse_int (count n) = some n
parse_int (text s) = none

abbrev pub show_int : Option ℕ → Value
show_int (some n) = count n
show_int none = text "NaN"

unfoldable pub incr_and_expire : String → ℕ → ℕ → Store → Store × Option ℕ
incr_and_expire key ttl_seconds now s =
    let (s', existing) = gc key now s in
    elim existing [
      | none ↦ (
        insert key (record { value = count 1; expires_at = now + ttl_seconds * 1000 }) s',
        some 1,
      )
      | some entry ↦
          let next = Option.map (λ n. n + 1) (parse_int entry.value) in
          (insert key (record entry { value = show_int next }) s', next)
    ]

unfoldable pub del : String → Store → Store
del key s = delete key s

-- `count <= limit`
abbrev pub within : Option ℕ → ℕ → Bool
within none limit = false
within (some n) limit = leb n limit

unfoldable pub ip_key : String → String → String
ip_key namespace ip = "freellm:iprate:" ++ (namespace ++ (":" ++ ip))

unfoldable pub enforce_ip_rate_limit : String → String → ℕ → ℕ → ℕ → Store → Store × Bool
enforce_ip_rate_limit namespace ip limit window_seconds now s =
    let (s', n) = incr_and_expire (ip_key namespace ip) window_seconds now s in
    if (ip == "") || (ip == "unknown") then (s, false) else (s', within n limit)

-- An id that is missing or empty, and a limit that is missing or 0, enforce nothing.
abbrev pub is_exempt : Option String → Option ℕ → Bool
is_exempt organization_id limit = (or_else organization_id "" == "") || (or_else limit 0 == 0)

unfoldable pub enforce_org_rpm_async : Option String → Option ℕ → ℕ → Store → Store × Bool
enforce_org_rpm_async organization_id limit now s =
    let (s', n) = incr_and_expire ("freellm:rpm:org:" ++ or_else organization_id "") 60 now s in
    if is_exempt organization_id limit then (s, true) else (s', within n (or_else limit 0))

pub record OrgRpmBucket : Type 0 where
  pub window_start : ℕ
  pub calls : ℕ

-- The synchronous limit, over its own map. A clock that goes back keeps the window.
unfoldable pub enforce_org_rpm :
    Option String
    → Option ℕ
    → ℕ
    → List (String × OrgRpmBucket)
    → List (String × OrgRpmBucket) × Bool
enforce_org_rpm organization_id limit now buckets =
    let id = or_else organization_id "" in
    let opened : List (String × OrgRpmBucket) × Bool =
      (insert id (record { window_start = now; calls = 1 }) buckets, true) in
    if is_exempt organization_id limit then (buckets, true) else elim (lookup id buckets) [
      | none ↦ opened
      | some b ↦
          if ltb 60000 (now - b.window_start)
          then opened
          else if leb (or_else limit 0) b.calls
          then (buckets, false)
          else (insert id (record b { calls = b.calls + 1 }) buckets, true)
    ]

abbrev pub demo_daily_request_limit : ℕ
demo_daily_request_limit = 15

-- `today` is `todayKey()`.
unfoldable pub enforce_demo_daily_requests : String → String → ℕ → Store → Store × Bool
enforce_demo_daily_requests today virtual_key_id now s =
    let (s', n) =
      incr_and_expire ("freellm:demo:req:" ++ (virtual_key_id ++ (":" ++ today))) 86400 now s in
    (s', within n demo_daily_request_limit)

unfoldable pub token_key : String → String → String
token_key today virtual_key_id = "freellm:demo:tok:" ++ (virtual_key_id ++ (":" ++ today))

-- `raw ? Number.parseInt(raw, 10) : 0`
abbrev pub used_tokens : Option Value → Option ℕ
used_tokens none = some 0
used_tokens (some (count n)) = some n
used_tokens (some (text s)) = if s == "" then some 0 else none

unfoldable pub record_demo_token_usage : String → String → ℕ → ℕ → Store → Store
record_demo_token_usage today virtual_key_id tokens now s =
    let key = token_key today virtual_key_id in
    let (s', raw) = get key now s in
    if tokens == 0
    then s
    else set key (show_int (Option.map (λ n. n + tokens) (used_tokens raw))) (some 86400) now s'
