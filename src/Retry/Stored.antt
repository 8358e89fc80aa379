-- ===== src/Retry/Stored.antt =====
-- The stored policy: what is read back is valid, and is what was written.
use freellm_gateway.Base.{
  ℕ, suc, ◌+◌, ◌*◌, ◌/◌, ◌%◌, ◌≤◌, ◌<◌, ◌≡◌, refl, ap, sym, ◌∙◌, subst, arith, List, [], ◌∷◌,
  length, length-take, take, map, String, Bool, true, false, All, All-take, zero, inl, eq_nat, ◌||◌,
}
use freellm_gateway.Retry.{RetryPolicy, million, max_attempts_limit, max_backoff_limit}
use freellm_gateway.Retry.Settings.{
  JsValue, num, text, JsArray, array, Patch, Row, no_row, unreadable, stored, normalize_int,
  normalize_float, status_codes, error_kinds, utf16_length, if_array, merge_with_defaults,
  validate_patch, get_policy, as_patch, set_policy, out_of_range, spread,
}

abbrev pub IsCode : ℕ → Type 0
IsCode c = (100 ≤ c) × (c < 600)

abbrev pub IsKind : String → Type 0
IsKind s = (0 < utf16_length s) × (utf16_length s ≤ 64)

pub record IsValid (p : RetryPolicy) : Type 0 where
  pub some_attempt : 1 ≤ p.max_attempts
  pub few_attempts : p.max_attempts ≤ max_attempts_limit
  pub initial_bound : p.initial_backoff_ms ≤ max_backoff_limit
  pub max_bound : p.max_backoff_ms ≤ max_backoff_limit
  pub ratio_bound : p.jitter_ratio ≤ million
  pub codes_bound : length p.retry_on_status_codes ≤ 20
  pub codes : All IsCode p.retry_on_status_codes
  pub kinds_bound : length p.retry_on_error_kinds ≤ 20
  pub kinds : All IsKind p.retry_on_error_kinds

normalize_int-bounds :
    (v : JsValue) (d lo hi : ℕ)
    → lo ≤ d
    → d ≤ hi
    → (lo ≤ normalize_int v d lo hi) × (normalize_int v d lo hi ≤ hi)
unfolding normalize_int
normalize_int-bounds v d lo hi h k = ground arith

normalize_float-le : (v : JsValue) (d hi : ℕ) → d ≤ hi → normalize_float v d 0 hi ≤ hi
unfolding normalize_float
normalize_float-le v d hi h = ground arith

status_codes-IsCode : (xs : List JsValue) → All IsCode (status_codes xs)
unfolding status_codes
status_codes-IsCode [] = tt
status_codes-IsCode (num n ∷ xs) = ground (arith, status_codes-IsCode xs)
status_codes-IsCode (_ ∷ xs) = status_codes-IsCode xs

error_kinds-IsKind : (xs : List JsValue) → All IsKind (error_kinds xs)
unfolding error_kinds
error_kinds-IsKind [] = tt
error_kinds-IsKind (text s ∷ xs) = ground (arith, error_kinds-IsKind xs)
error_kinds-IsKind (_ ∷ xs) = error_kinds-IsKind xs

module _ {ℓ κ} {A : Type ℓ} (P : A → Type κ) (f : List JsValue → List A)
    (h : (xs : List JsValue) → All P (f xs)) where
  if_array-All : (v : JsArray) → All P (if_array v (λ xs. take 20 (f xs)) [])
  if_array-All (array xs) = All-take P 20 (f xs) (h xs)
  if_array-All _ = tt

if_array-length {ℓ} :
    {A : Type ℓ} (f : List JsValue → List A) (v : JsArray)
    → length (if_array v (λ xs. take 20 (f xs)) []) ≤ 20
if_array-length f (array xs) = omega (arith, length-take 20 (f xs))
if_array-length f _ = omega arith

merge_with_defaults-IsValid : (p : Patch) → IsValid (merge_with_defaults p)
unfolding merge_with_defaults
merge_with_defaults-IsValid p = record {
  some_attempt =
      (normalize_int-bounds p.max_attempts 4 1 max_attempts_limit (omega arith) (omega arith)).0;
  few_attempts =
      (normalize_int-bounds p.max_attempts 4 1 max_attempts_limit (omega arith) (omega arith)).1;
  initial_bound =
      (normalize_int-bounds p.initial_backoff_ms 200 0 max_backoff_limit (omega arith)
        (omega arith)).1;
  max_bound =
      (normalize_int-bounds p.max_backoff_ms 5000 0 max_backoff_limit (omega arith)
        (omega arith)).1;
  ratio_bound = normalize_float-le p.jitter_ratio 300000 million (omega arith);
  codes_bound = if_array-length status_codes p.retry_on_status_codes;
  codes = if_array-All IsCode status_codes status_codes-IsCode p.retry_on_status_codes;
  kinds_bound = if_array-length error_kinds p.retry_on_error_kinds;
  kinds = if_array-All IsKind error_kinds error_kinds-IsKind p.retry_on_error_kinds;
}

-- Whatever the setting row holds (nothing, a text that does not parse, or any JSON object), the
-- policy read from it is valid: one to ten attempts, waits of at most a minute, a jitter ratio of
-- at most one, at most twenty status codes from 100 to 599, at most twenty non-empty kinds.
pub get_policy-IsValid : (row : Row) → IsValid (get_policy row)
unfolding get_policy
get_policy-IsValid no_row = omega arith
get_policy-IsValid unreadable = omega arith
get_policy-IsValid (stored p) = merge_with_defaults-IsValid p

normalize_int-whole :
    (n d lo hi : ℕ) → lo ≤ n → n ≤ hi → normalize_int (num (n * million)) d lo hi ≡ n
unfolding normalize_int
normalize_int-whole n d lo hi h k = rw (whole n) (ground arith)
  where
    whole : (n : ℕ) → (n * million + 500000) / million ≡ n
    whole n = omega arith

normalize_float-id : (n d hi : ℕ) → n ≤ hi → normalize_float (num n) d 0 hi ≡ n
unfolding normalize_float
normalize_float-id n d hi h = ground arith

abbrev encode_codes : List ℕ → List JsValue
encode_codes = map (λ n. num (n * million))

status_codes-encode : (cs : List ℕ) → All IsCode cs → status_codes (encode_codes cs) ≡ cs
unfolding status_codes
status_codes-encode [] h = refl
status_codes-encode (c ∷ cs) h = rw (whole, exact) (ground (arith, status_codes-encode cs h.1))
  where
    whole : c * million / million ≡ c
    whole = omega arith

    exact : c * million % million ≡ 0
    exact = omega arith

error_kinds-encode : (ks : List String) → All IsKind ks → error_kinds (map text ks) ≡ ks
unfolding error_kinds
error_kinds-encode [] h = refl
error_kinds-encode (k ∷ ks) h = ground (arith, error_kinds-encode ks h.1)

take-all {ℓ} : {A : Type ℓ} (n : ℕ) (xs : List A) → length xs ≤ n → take n xs ≡ xs
take-all zero [] h = refl
take-all zero (x ∷ xs) h = absurd (omega arith)
take-all (suc n) [] h = refl
take-all (suc n) (x ∷ xs) h = ap (◌∷◌ x) (take-all n xs (omega arith))

merge_with_defaults-as_patch : (p : RetryPolicy) → IsValid p → merge_with_defaults (as_patch p) ≡ p
unfolding merge_with_defaults as_patch
merge_with_defaults-as_patch p v = λ i. record {
  max_attempts =
      normalize_int-whole p.max_attempts 4 1 max_attempts_limit v.some_attempt v.few_attempts i;
  initial_backoff_ms =
      normalize_int-whole p.initial_backoff_ms 200 0 max_backoff_limit (omega arith) v.initial_bound
        i;
  max_backoff_ms =
      normalize_int-whole p.max_backoff_ms 5000 0 max_backoff_limit (omega arith) v.max_bound i;
  jitter_ratio = normalize_float-id p.jitter_ratio 300000 million v.ratio_bound i;
  retry_on_status_codes =
      (ap (take 20) (status_codes-encode p.retry_on_status_codes v.codes)
          ∙ take-all 20 p.retry_on_status_codes v.codes_bound)
        i;
  retry_on_error_kinds =
      (ap (take 20) (error_kinds-encode p.retry_on_error_kinds v.kinds)
          ∙ take-all 20 p.retry_on_error_kinds v.kinds_bound)
        i;
}

set_policy-eq-inl :
    (patch : Patch) (row row' : Row) (p : RetryPolicy)
    → set_policy patch row ≡ inl (row', p)
    → (row' ≡ stored (as_patch p))
      × (p ≡ merge_with_defaults (spread (as_patch (get_policy row)) patch))
      × (validate_patch patch ≡ false)
unfolding set_policy
set_policy-eq-inl patch row row' p h = ground arith

-- A policy that `setPolicy` accepts is the one that `getPolicy` reads back from the row it wrote.
pub get_policy-set_policy :
    (patch : Patch) (row row' : Row) (p : RetryPolicy)
    → set_policy patch row ≡ inl (row', p)
    → get_policy row' ≡ p
unfolding get_policy
get_policy-set_policy patch row row' p h =
    let (written, merged, _) = set_policy-eq-inl patch row row' p h in
    rw written
      (merge_with_defaults-as_patch p (subst IsValid (sym merged) (merge_with_defaults-IsValid _)))

validate_patch-range :
    (patch : Patch) (n : ℕ)
    → validate_patch patch ≡ false
    → patch.max_attempts ≡ num n
    → (n % million ≡ 0) × (1 * million ≤ n) × (n ≤ max_attempts_limit * million)
unfolding validate_patch
validate_patch-range patch n h e =
    let first : out_of_range true 1 max_attempts_limit patch.max_attempts ≡ false =
      first_test _ _ _ _ _ _ _ h in
    in_range (rw e at first)
  where
    first_test : (a b c d e f g : Bool) → (a || b || c || d || e || f || g) ≡ false → a ≡ false
    first_test true b c d e f g h = h
    first_test false b c d e f g h = refl

    in_range :
        out_of_range true 1 max_attempts_limit (num n) ≡ false
        → (n % million ≡ 0) × (1 * million ≤ n) × (n ≤ max_attempts_limit * million)
    in_range k = ground arith

-- `setPolicy` never rounds or clamps the number of attempts that it is given: it stores exactly
-- that number, or refuses the patch.
pub set_policy-max_attempts :
    (patch : Patch) (row row' : Row) (p : RetryPolicy) (n : ℕ)
    → set_policy patch row ≡ inl (row', p)
    → patch.max_attempts ≡ num n
    → p.max_attempts * million ≡ n
unfolding merge_with_defaults spread normalize_int
set_policy-max_attempts patch row row' p n h e =
    let (written, merged, valid) = set_policy-eq-inl patch row row' p h in
    let (whole, lo, hi) = validate_patch-range patch n valid e in rw merged (rw e (ground arith))
