-- ===== src/Keys/Secret.antt =====
-- The format of a secret, and of the header that carries it: `VIRTUAL_KEY_PATTERN`,
-- /^fllm_(live|test)_[0-9a-f]{64}$/, and the wider pattern of `resolveBySecretWithTenancy`,
-- /^fllm_(live|test)_[a-f0-9]{16,128}$/i. Texts are lists of UTF-16 units.
use freellm_gateway.Base.{
  ℕ, ◌+◌, String, Bool, true, false, ◌&&◌, ◌||◌, Option, none, some, List, [], ◌∷◌, leb, ◌==◌,
  eq_nat, if◌then◌else◌, length, contains, map,
}
use freellm_gateway.Classify.Regex.{units}

-- What is left of a text after a prefix.
abbrev pub after_prefix : List ℕ → List ℕ → Option (List ℕ)
after_prefix [] xs = some xs
after_prefix (p ∷ ps) [] = none
after_prefix (p ∷ ps) (x ∷ xs) = let rest = after_prefix ps xs in if p == x then rest else none

-- `String.prototype.trim`
abbrev pub is_space : ℕ → Bool
is_space c =
    (leb 9 c && leb c 13)
    || (leb 8192 c && leb c 8202)
    || contains (32 ∷ 160 ∷ 5760 ∷ 8232 ∷ 8233 ∷ 8239 ∷ 8287 ∷ 12288 ∷ 65279 ∷ []) c

unfoldable pub trim_start : List ℕ → List ℕ
trim_start [] = []
trim_start (c ∷ cs) = let rest = trim_start cs in if is_space c then rest else c ∷ cs

unfoldable pub trim_end : List ℕ → List ℕ
trim_end [] = []
trim_end (c ∷ cs) = elim (trim_end cs) [
  | [] ↦ if is_space c then [] else c ∷ []
  | d ∷ ds ↦ c ∷ d ∷ ds
]

unfoldable pub trim : List ℕ → List ℕ
unfolding trim_start trim_end
trim cs = trim_end (trim_start cs)

-- `auth.slice('Bearer '.length).trim()`, where the header starts with `Bearer `.
unfoldable pub bearer : Option String → Option (List ℕ)
unfolding units trim
bearer none = none
bearer (some auth) = elim (after_prefix (units "Bearer ") (units auth)) [
  | none ↦ none
  | some rest ↦ some (trim rest)
]

abbrev pub all_of : (ℕ → Bool) → List ℕ → Bool
all_of p [] = true
all_of p (x ∷ xs) = p x && all_of p xs

abbrev pub is_hex : ℕ → Bool
is_hex c = (leb b'0' c && leb c b'9') || (leb b'a' c && leb c b'f')

-- The flag i: an ASCII capital stands for its small letter.
abbrev pub small : ℕ → ℕ
small c = if leb b'A' c && leb c b'Z' then c + 32 else c

-- What follows `fllm_live_` or `fllm_test_`.
unfoldable pub secret_body : List ℕ → Option (List ℕ)
unfolding units
secret_body xs = elim (after_prefix (units "fllm_live_") xs) [
  | some rest ↦ some rest
  | none ↦ after_prefix (units "fllm_test_") xs
]

abbrev pub digits_between : ℕ → ℕ → Option (List ℕ) → Bool
digits_between lo hi none = false
digits_between lo hi (some xs) = leb lo (length xs) && leb (length xs) hi && all_of is_hex xs

unfoldable pub is_virtual_key : List ℕ → Bool
unfolding secret_body
is_virtual_key xs = digits_between 64 64 (secret_body xs)

unfoldable pub is_resolvable : List ℕ → Bool
unfolding secret_body
is_resolvable xs = digits_between 16 128 (secret_body (map small xs))
