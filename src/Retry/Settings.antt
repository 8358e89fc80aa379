-- ===== src/Retry/Settings.antt =====
-- The retry policy as a stored setting: `RetryPolicyService`, `mergeWithDefaults`, `validatePatch`
-- and the two `normalize` functions. The setting row holds the parsed JSON value; `unreadable`
-- stands for a text that `JSON.parse` refuses.
use Prim.Native.Char.{code}
use freellm_gateway.Base.{
  ℕ, zero, suc, ◌⊎◌, inl, inr, or_else, ◌+◌, ◌*◌, ◌/◌, ◌%◌, min, max, String, Bool, true, false,
  not, ◌&&◌, ◌||◌, Option, List, [], ◌∷◌, map, if◌then◌else◌, ltb, leb, take, eq_nat, ◌==◌,
}
use freellm_gateway.Errors.{ErrorKind, bad_request}
use freellm_gateway.Retry.{
  RetryPolicy, max_attempts_limit, max_backoff_limit, million, default_retry_policy,
  compute_base_backoff, compute_backoff, round_to_zero,
}

-- A field of a JSON object. `absent`: no such key; `nothing`: null or undefined; `junk`: NaN, an
-- infinity, or a value of a type that no field admits; `num n` is n millionths and `neg n` is
-- -(n + 1) millionths.
pub data JsValue : Type 0 where
  absent nothing junk : JsValue
  num neg : ℕ → JsValue
  text : String → JsValue

pub data JsArray : Type 0 where
  missing null_array no_array : JsArray
  array : List JsValue → JsArray

-- `Partial<RetryPolicy>`
pub record Patch : Type 0 where
  pub max_attempts : JsValue
  pub initial_backoff_ms : JsValue
  pub max_backoff_ms : JsValue
  pub jitter_ratio : JsValue
  pub retry_on_status_codes : JsArray
  pub retry_on_error_kinds : JsArray

-- `min` is 0 or 1 at every call, so a negative number is below it or rounds to it.
unfoldable pub normalize_int : JsValue → ℕ → ℕ → ℕ → ℕ
normalize_int (num n) fallback lo hi =
    let i = (n + 500000) / million in if ltb i lo then lo else if ltb hi i then hi else i
normalize_int (neg n) fallback lo hi = lo
normalize_int _ fallback lo hi = fallback

unfoldable pub normalize_float : JsValue → ℕ → ℕ → ℕ → ℕ
normalize_float (num n) fallback lo hi = if ltb n lo then lo else if ltb hi n then hi else n
normalize_float (neg n) fallback lo hi = lo
normalize_float _ fallback lo hi = fallback

-- `Number.isInteger(x) && x >= 100 && x < 600`, and the number.
unfoldable pub status_codes : List JsValue → List ℕ
status_codes [] = []
status_codes (num n ∷ xs) =
    let rest = status_codes xs in
    if (n % million == 0) && leb 100 (n / million) && ltb (n / million) 600
    then (n / million) ∷ rest
    else rest
status_codes (_ ∷ xs) = status_codes xs

-- The length of a text in UTF-16 units.
unfoldable pub utf16_length : String → ℕ
utf16_length String.[] = 0
utf16_length (String.◌∷◌ c s) = (if ltb (code c) 65536 then 1 else 2) + utf16_length s

unfoldable pub error_kinds : List JsValue → List String
error_kinds [] = []
error_kinds (text s ∷ xs) =
    let rest = error_kinds xs in
    if ltb 0 (utf16_length s) && leb (utf16_length s) 64 then s ∷ rest else rest
error_kinds (_ ∷ xs) = error_kinds xs

abbrev pub if_array {ℓ} : {A : Type ℓ} → JsArray → (List JsValue → A) → A → A
if_array (array xs) f d = f xs
if_array _ f d = d

unfoldable pub merge_with_defaults : Patch → RetryPolicy
merge_with_defaults p = record {
  max_attempts =
      normalize_int p.max_attempts default_retry_policy.max_attempts 1 max_attempts_limit;
  initial_backoff_ms =
      normalize_int p.initial_backoff_ms default_retry_policy.initial_backoff_ms 0
        max_backoff_limit;
  max_backoff_ms =
      normalize_int p.max_backoff_ms default_retry_policy.max_backoff_ms 0 max_backoff_limit;
  jitter_ratio = normalize_float p.jitter_ratio default_retry_policy.jitter_ratio 0 million;
  retry_on_status_codes =
      if_array p.retry_on_status_codes (λ xs. take 20 (status_codes xs))
        default_retry_policy.retry_on_status_codes;
  retry_on_error_kinds =
      if_array p.retry_on_error_kinds (λ xs. take 20 (error_kinds xs))
        default_retry_policy.retry_on_error_kinds;
}

-- `v != null && (… || v < lo || v > hi)`, with `Number.isInteger` or `Number.isFinite`.
abbrev pub out_of_range : Bool → ℕ → ℕ → JsValue → Bool
out_of_range whole lo hi absent = false
out_of_range whole lo hi nothing = false
out_of_range whole lo hi (num n) =
    (whole && not (n % million == 0)) || ltb n (lo * million) || ltb (hi * million) n
out_of_range whole lo hi _ = true

-- `a != null && b != null && a > b`, where both were found finite.
abbrev pub exceeds : JsValue → JsValue → Bool
exceeds (num a) (num b) = ltb b a
exceeds _ _ = false

abbrev pub is_no_array : JsArray → Bool
is_no_array no_array = true
is_no_array _ = false

-- The tests in order; true where one throws `bad_request`.
unfoldable pub validate_patch : Patch → Bool
validate_patch p =
    out_of_range true 1 max_attempts_limit p.max_attempts
    || out_of_range false 0 max_backoff_limit p.initial_backoff_ms
    || out_of_range false 0 max_backoff_limit p.max_backoff_ms
    || exceeds p.initial_backoff_ms p.max_backoff_ms
    || out_of_range false 0 1 p.jitter_ratio
    || is_no_array p.retry_on_status_codes
    || is_no_array p.retry_on_error_kinds

pub data Row : Type 0 where
  no_row unreadable : Row
  stored : Patch → Row

unfoldable pub get_policy : Row → RetryPolicy
get_policy no_row = default_retry_policy
get_policy unreadable = default_retry_policy
get_policy (stored p) = merge_with_defaults p

-- What `JSON.parse` gives for `JSON.stringify(policy)`.
unfoldable pub as_patch : RetryPolicy → Patch
as_patch p = record {
  max_attempts = num (p.max_attempts * million);
  initial_backoff_ms = num (p.initial_backoff_ms * million);
  max_backoff_ms = num (p.max_backoff_ms * million);
  jitter_ratio = num p.jitter_ratio;
  retry_on_status_codes = array (map (λ n. num (n * million)) p.retry_on_status_codes);
  retry_on_error_kinds = array (map text p.retry_on_error_kinds);
}

-- `{ ...current, ...patch }`, key by key.
abbrev pub over : JsValue → JsValue → JsValue
over cur absent = cur
over cur new = new

abbrev pub over_array : JsArray → JsArray → JsArray
over_array cur missing = cur
over_array cur new = new

unfoldable pub spread : Patch → Patch → Patch
spread c p = record {
  max_attempts = over c.max_attempts p.max_attempts;
  initial_backoff_ms = over c.initial_backoff_ms p.initial_backoff_ms;
  max_backoff_ms = over c.max_backoff_ms p.max_backoff_ms;
  jitter_ratio = over c.jitter_ratio p.jitter_ratio;
  retry_on_status_codes = over_array c.retry_on_status_codes p.retry_on_status_codes;
  retry_on_error_kinds = over_array c.retry_on_error_kinds p.retry_on_error_kinds;
}

-- The new row and the policy returned, or the error thrown, which leaves the row alone.
unfoldable pub set_policy : Patch → Row → (Row × RetryPolicy) ⊎ ErrorKind
set_policy patch row =
    let merged = merge_with_defaults (spread (as_patch (get_policy row)) patch) in
    if validate_patch patch then inr bad_request else inl (stored (as_patch merged), merged)

pub record BackoffPreview : Type 0 where
  pub attempt : ℕ
  pub base_ms : ℕ
  pub with_jitter_min_ms : ℕ
  pub with_jitter_max_ms : ℕ
  pub sample_ms : ℕ

-- One round of the loop of `previewBackoffs`.
unfoldable pub preview_backoff : RetryPolicy → ℕ → ℕ → BackoffPreview
preview_backoff policy i random =
    let base = compute_base_backoff i policy in
    let jitter = base * policy.jitter_ratio in
    record {
      attempt = i;
      base_ms = base;
      with_jitter_min_ms = round_to_zero (base * million) jitter million;
      with_jitter_max_ms = (base * million + jitter + million / 2) / million;
      sample_ms = compute_backoff i policy random;
    }

-- Rounds i, i + 1, …; `random i` is the draw of round i.
unfoldable pub preview_from : RetryPolicy → (ℕ → ℕ) → ℕ → ℕ → List BackoffPreview
preview_from policy random i zero = []
preview_from policy random i (suc n) =
    preview_backoff policy i (random i) ∷ preview_from policy random (suc i) n

-- `maxAttempts ?? policy.maxAttempts`, held to 1..10.
unfoldable pub preview_backoffs : Row → Option ℕ → (ℕ → ℕ) → List BackoffPreview
preview_backoffs row max_attempts random =
    let policy = get_policy row in
    preview_from policy random 1
      (min (max (or_else max_attempts policy.max_attempts) 1) max_attempts_limit)
