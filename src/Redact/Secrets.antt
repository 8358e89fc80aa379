-- ===== src/Redact/Secrets.antt =====
-- What `scrubObject` gives does not depend on the secrets.
use freellm_gateway.Base.{
  ℕ, zero, suc, append_assoc, ◌≤◌, String, true, false, List, [], ◌∷◌, ◌++◌, take, length,
  length-append, ◌≡◌, refl, sym, ◌∙◌, ap, ◌⊎◌, inl, inr, if◌then◌else◌, if_yes, contains, eq_string,
  arith, leb,
}
use freellm_gateway.Classify.Regex.{Occurs, choice, words, units, test_iff}
use freellm_gateway.Redact.{
  Value, null, undefined, flag, number, text, arr, obj, Elements, no_elements, element, Fields,
  no_fields, field, is_sensitive, names_key, mask_key, last_two, redacted, scrub_field, scrub,
  scrub_elements, scrub_fields,
}

-- The names of the fields that no value may be shown of.
abbrev pub secret_names : List String
secret_names =
    "authorization" ∷ "apiKey" ∷ "api_key" ∷ "password" ∷ "token" ∷ "accessToken" ∷ "access_token"
    ∷ "refreshToken" ∷ "sessionSecret" ∷ "masterKey" ∷ "cipherText" ∷ "cipher_text" ∷ "plain"
    ∷ "plaintext" ∷ "secret" ∷ "tokenHash" ∷ "sessionToken" ∷ "hash" ∷ []

abbrev pub IsSecret : String → Type 0
IsSecret name = contains secret_names name ≡ true

-- A name that holds the word key, in either case of its letters (K can be the sign for Kelvin).
abbrev pub HasKey : String → Type 0
HasKey name = Occurs true (choice "kKK" (words "ey" [])) (units name)

-- Two keys of which no more than eight units are there, or with the same first four and last two.
abbrev pub SameEnds : List ℕ → List ℕ → Type 0
SameEnds s t =
    ((length s ≤ 8) × (length t ≤ 8))
    ⊎ ((front : List ℕ) × (p : List ℕ) × (q : List ℕ) × (back : List ℕ) × (s ≡ front ++ (p ++ back))
        × (t ≡ front ++ (q ++ back))
        × (length front ≡ 4)
        × (length back ≡ 2)
        × (3 ≤ length p)
        × (3 ≤ length q))

-- Two texts of a field with a key in its name that show the same ends.
abbrev pub KeysAlike : String → Value → Value → Type 0
KeysAlike name (text s) (text t) = HasKey name × SameEnds s t
KeysAlike name _ _ = ⊥

-- Two values that differ in secrets alone: in the values of sensitive fields, whatever they hold,
-- and inside the keys that other fields hold as texts.
unfoldable mutual
  pub Alike : Value → Value → Type 0
  Alike (arr xs) (arr ys) = AlikeElements xs ys
  Alike (obj fs) (obj gs) = AlikeFields fs gs
  Alike v w = v ≡ w

  pub AlikeElements : Elements → Elements → Type 0
  AlikeElements no_elements no_elements = Unit
  AlikeElements (element v xs) (element w ys) = Alike v w × AlikeElements xs ys
  AlikeElements _ _ = ⊥

  pub AlikeFields : Fields → Fields → Type 0
  AlikeFields no_fields no_fields = Unit
  AlikeFields (field k v fs) (field l w gs) =
      (k ≡ l) × (IsSecret k ⊎ KeysAlike k v w ⊎ Alike v w) × AlikeFields fs gs
  AlikeFields _ _ = ⊥

scrub_field-sensitive :
    (k : String) (v s : Value) → is_sensitive k ≡ true → scrub_field k v s ≡ text redacted
scrub_field-sensitive k null s h = if_yes (is_sensitive k) _ _ h
scrub_field-sensitive k undefined s h = if_yes (is_sensitive k) _ _ h
scrub_field-sensitive k (flag b) s h = if_yes (is_sensitive k) _ _ h
scrub_field-sensitive k (number n) s h = if_yes (is_sensitive k) _ _ h
scrub_field-sensitive k (text t) s h = if_yes (is_sensitive k) _ _ h
scrub_field-sensitive k (arr xs) s h = if_yes (is_sensitive k) _ _ h
scrub_field-sensitive k (obj fs) s h = if_yes (is_sensitive k) _ _ h

last_two-append : (xs back : List ℕ) → length back ≡ 2 → last_two (xs ++ back) ≡ back
last_two-append [] [] two = absurd (omega (arith, two))
last_two-append [] (a ∷ []) two = absurd (omega (arith, two))
last_two-append [] (a ∷ b ∷ []) two = refl
last_two-append [] (a ∷ b ∷ c ∷ cs) two = absurd (omega (arith, two))
last_two-append (x ∷ xs) back two =
    ground (arith, length-append xs back, two, last_two-append xs back two)

take-append : (n : ℕ) (xs ys : List ℕ) → length xs ≡ n → take n (xs ++ ys) ≡ xs
take-append zero [] ys e = refl
take-append zero (x ∷ xs) ys e = absurd (omega (arith, e))
take-append (suc n) [] ys e = absurd (omega (arith, e))
take-append (suc n) (x ∷ xs) ys e = ap (◌∷◌ x) (take-append n xs ys (omega (arith, e)))

mask_key-long :
    (front p back : List ℕ)
    → length front ≡ 4
    → length back ≡ 2
    → 3 ≤ length p
    → mask_key (front ++ (p ++ back)) ≡ front ++ 8230 ∷ back
unfolding mask_key
mask_key-long front p back four two long =
    let ends : last_two (front ++ (p ++ back)) ≡ back =
      ap last_two (sym (append_assoc front p back)) ∙ last_two-append (front ++ p) back two in
    let big : leb (length (front ++ (p ++ back))) 8 ≡ false =
      ground (arith, four, two, long, length-append front (p ++ back), length-append p back) in
    rw big (λ i. take-append 4 front (p ++ back) four i ++ 8230 ∷ ends i)

mask_key-SameEnds : (s t : List ℕ) → SameEnds s t → mask_key s ≡ mask_key t
unfolding mask_key
mask_key-SameEnds s t (inl (short, short')) = ground (arith, short, short')
mask_key-SameEnds s t (inr (front, p, q, back, here, there, four, two, long, long')) =
    ap mask_key here
    ∙ mask_key-long front p back four two long
    ∙ sym (mask_key-long front q back four two long')
    ∙ ap mask_key (sym there)

names_key-HasKey : (name : String) → HasKey name → names_key name ≡ true
unfolding names_key
names_key-HasKey name h = (test_iff true (choice "kKK" (words "ey" [])) name).1 h

scrub_field-KeysAlike :
    (k : String) (v w sv sw : Value) → KeysAlike k v w → scrub_field k v sv ≡ scrub_field k w sw
scrub_field-KeysAlike k (text s) (text t) sv sw (named, ends) =
    ap (λ (shown : Value). if is_sensitive k then text redacted else shown)
      (if_yes (names_key k) _ _ (names_key-HasKey k named)
        ∙ ap (λ m. text m) (mask_key-SameEnds s t ends)
        ∙ sym (if_yes (names_key k) _ _ (names_key-HasKey k named)))
scrub_field-KeysAlike k v w sv sw h = absurd h

scrub_field-Alike :
    (k : String) (v w : Value)
    → Alike v w
    → scrub v ≡ scrub w
    → scrub_field k v (scrub v) ≡ scrub_field k w (scrub w)
unfolding Alike
scrub_field-Alike k (arr xs) (arr ys) h e =
    ap (λ (s : Value). if is_sensitive k then text redacted else s) e
scrub_field-Alike k (obj fs) (obj gs) h e =
    ap (λ (s : Value). if is_sensitive k then text redacted else s) e
scrub_field-Alike k v w h e = ap (λ (x : Value). scrub_field k x (scrub x)) h

mutual
  unfolding scrub Alike

  scrub-Alike : (v w : Value) → Alike v w → scrub v ≡ scrub w
  scrub-Alike (arr xs) (arr ys) h = ap (λ zs. arr zs) (scrub_elements-Alike xs ys h)
  scrub-Alike (obj fs) (obj gs) h = ap (λ hs. obj hs) (scrub_fields-Alike fs gs h)
  scrub-Alike v w h = ap scrub h

  scrub_elements-Alike :
      (xs ys : Elements) → AlikeElements xs ys → scrub_elements xs ≡ scrub_elements ys
  scrub_elements-Alike no_elements no_elements h = refl
  scrub_elements-Alike (element v xs) (element w ys) h =
      λ i. element (scrub-Alike v w h.0 i) (scrub_elements-Alike xs ys h.1 i)
  scrub_elements-Alike xs ys h = absurd h

  scrub_fields-Alike : (fs gs : Fields) → AlikeFields fs gs → scrub_fields fs ≡ scrub_fields gs
  scrub_fields-Alike no_fields no_fields h = refl
  scrub_fields-Alike (field k v fs) (field l w gs) (named, how, rest) =
      let value : scrub_field k v (scrub v) ≡ scrub_field k w (scrub w) = elim how [
        | inl hidden ↦
            scrub_field-sensitive k v (scrub v) hidden
            ∙ sym (scrub_field-sensitive k w (scrub w) hidden)
        | inr (inl ends) ↦ scrub_field-KeysAlike k v w (scrub v) (scrub w) ends
        | inr (inr same) ↦ scrub_field-Alike k v w same (scrub-Alike v w same)
      ] in
      let other = scrub_fields-Alike fs gs rest in
      (λ i. field k (value i) (other i))
      ∙ ap (λ (n : String). field n (scrub_field n w (scrub w)) (scrub_fields gs)) named
  scrub_fields-Alike fs gs h = absurd h

-- `scrubObject` gives the same for two values that differ in secrets alone: what it gives tells
-- nothing of the values of the fields with one of the eighteen secret names, nothing of a text of at
-- most eight units in another field that has the word key in its name, and of a longer one no more
-- than its first four and last two units.
pub scrub_lem : (v w : Value) → Alike v w → scrub v ≡ scrub w
scrub_lem v w h = scrub-Alike v w h
