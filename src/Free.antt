-- ===== src/Free.antt =====
-- packages/provider-core/src/free-detector.ts: `classifyFree`, and what of `toDiscoveredModel`
-- discovery reads. Trimming and lowering a text, and `Number` of a text, are parameters. A
-- confidence is in hundredths. Grounds has what each answer rests on.
pub mod Grounds
use freellm_gateway.Base.{
  ℕ, ◌+◌, String, Bool, true, false, not, ◌&&◌, ◌||◌, Option, none, some, List, [], ◌∷◌, map,
  contains, leb, ◌==◌, eq_nat, eq_string, if◌then◌else◌, is_some, or_else,
}
use freellm_gateway.Number.{Number}
use freellm_gateway.Classify.Regex.{units}
use freellm_gateway.Keys.Secret.{after_prefix, small}
use freellm_gateway.Discovery.{
  Codec, ModelCapabilities, FreeClassification, free, paid, suspected, unknown, DiscoveredModel,
}

pub data FreeDetectorReason : Type 0 where
  pricing_all_zero pricing_partial_zero pricing_nonzero suffix_free id_heuristic
        top_provider_free_tier missing_pricing manual_override :
      FreeDetectorReason

pub record FreeDetectorResult : Type 0 where
  pub classification : FreeClassification
  pub reason : FreeDetectorReason
  pub confidence : ℕ

pub data ManualOverride : Type 0 where
  force_free force_paid : ManualOverride

-- A price is a number or a text.
pub data Price (F : Type 0) : Type 0 where
  number : F → Price F
  text : String → Price F

pub record Pricing (F : Type 0) : Type 0 where
  pub prompt : Option (Price F)
  pub completion : Option (Price F)
  pub request : Option (Price F)

pub record FreeDetectorInput (F : Type 0) : Type 0 where
  pub upstream_id : String
  pub pricing : Option (Pricing F)
  pub top_provider : Option String
  pub override : Option ManualOverride

-- The characters of `\w`, and what `\b` asks of the rest of a text behind a word.
abbrev pub is_word : ℕ → Bool
is_word c =
    (leb b'0' c && leb c b'9')
    || (leb b'a' c && leb c b'z')
    || (leb b'A' c && leb c b'Z')
    || c == b'_'

abbrev pub ends_word : Option (List ℕ) → Bool
ends_word none = false
ends_word (some []) = true
ends_word (some (c ∷ cs)) = not (is_word c)

abbrev pub some_word : List (List ℕ) → List ℕ → Bool
some_word [] xs = false
some_word (w ∷ ws) xs = ends_word (after_prefix w xs) || some_word ws xs

-- `/\b(…)\b/i` on a text in small letters, behind a word's character or not.
unfoldable pub has_word_from : Bool → List (List ℕ) → List ℕ → Bool
has_word_from behind ws [] = false
has_word_from behind ws (x ∷ xs) =
    let rest = has_word_from (is_word x) ws xs in (not behind && some_word ws (x ∷ xs)) || rest

unfoldable pub has_word : List String → String → Bool
unfolding has_word_from units
has_word ws t = has_word_from false (map units ws) (map small (units t))

-- `/:free(\b|$)/i`
unfoldable pub has_suffix_from : List ℕ → Bool
unfolding units
has_suffix_from [] = false
has_suffix_from (x ∷ xs) =
    let rest = has_suffix_from xs in ends_word (after_prefix (units ":free") (x ∷ xs)) || rest

unfoldable pub looks_like_free_suffix : String → Bool
unfolding has_suffix_from units
looks_like_free_suffix id = has_suffix_from (map small (units id))

unfoldable pub id_looks_free : String → Bool
unfolding has_word
id_looks_free = has_word ("free" ∷ "trial" ∷ "sandbox" ∷ "preview-free" ∷ [])

abbrev pub free_number_forms : List String
free_number_forms = "0" ∷ "0.0" ∷ "0.00" ∷ "0e0" ∷ "0e-9" ∷ "0e+0" ∷ []

module _ (N : Number) (normalise : String → String) (number_of : String → N.F) where
  open N use {F, lit, equal, is_finite}

  unfoldable pub is_zero : Option (Price F) → Bool
  is_zero none = false
  is_zero (some (number x)) = equal x (lit 0 1)
  is_zero (some (text raw)) =
      let norm = normalise raw in
      not (norm == "")
      && (contains free_number_forms norm
          || (is_finite (number_of norm) && equal (number_of norm) (lit 0 1)))

  abbrev pub no_pricing : Pricing F
  no_pricing = record { prompt = none; completion = none; request = none }

  abbrev pub any_published : Pricing F → Bool
  any_published p = is_some p.prompt || is_some p.completion || is_some p.request

  abbrev pub any_published_non_zero : Pricing F → Bool
  any_published_non_zero p =
      (is_some p.prompt && not (is_zero p.prompt))
      || (is_some p.completion && not (is_zero p.completion))
      || (is_some p.request && not (is_zero p.request))

  abbrev pub all_zero : Pricing F → Bool
  all_zero p =
      is_zero p.prompt && is_zero p.completion && (not (is_some p.request) || is_zero p.request)

  abbrev pub result : FreeClassification → FreeDetectorReason → ℕ → FreeDetectorResult
  result c r n = record { classification = c; reason = r; confidence = n }

  -- Behind the override.
  unfoldable pub classify_signals : FreeDetectorInput F → FreeDetectorResult
  classify_signals input =
      let pricing = or_else input.pricing no_pricing in
      let suffix = looks_like_free_suffix input.upstream_id in
      let hints = id_looks_free input.upstream_id in
      if any_published pricing && all_zero pricing
      then result free pricing_all_zero (if suffix || hints then 99 else 92)
      else if any_published pricing
          && (is_zero pricing.prompt || is_zero pricing.completion)
          && suffix
      then result free pricing_partial_zero 85
      else if any_published pricing && any_published_non_zero pricing
      then result paid pricing_nonzero 95
      else if suffix
      then result suspected suffix_free 65
      else if hints
      then result suspected id_heuristic 50
      else if has_word ("free" ∷ []) (or_else input.top_provider "")
      then result suspected top_provider_free_tier 55
      else result unknown missing_pricing 20

  unfoldable pub classify_free : FreeDetectorInput F → FreeDetectorResult
  unfolding classify_signals
  classify_free input = elim input.override [
    | some force_free ↦ result free manual_override 100
    | some force_paid ↦ result paid manual_override 100
    | none ↦ classify_signals input
  ]
