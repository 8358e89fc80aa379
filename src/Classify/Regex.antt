-- ===== src/Classify/Regex.antt =====
-- The fragment of JavaScript regular expressions that the classifier uses: letters, `[_ ]`, `.*` and
-- an optional letter, searched anywhere in a text, with or without the flag i. Under that flag an
-- ASCII letter matches its two cases and nothing else.
use Prim.Native.Char.{code}
use mathlib.Core.Bool.{and-eq-true_iff}
use freellm_gateway.Base.{
  ℕ, ◌+◌, ◌-◌, ◌/◌, ◌%◌, String, Bool, true, false, not, ◌&&◌, ◌||◌, List, [], ◌∷◌, ◌++◌, ◌==◌,
  eq_nat, if◌then◌else◌, ltb, leb, contains, ◌≡◌, refl, ◌↔◌, ◌⊎◌, ap, sym, subst, arith, inl, inr,
}

pub data Item : Type 0 where
  letter : ℕ → Item
  one_of : List ℕ → Item
  any_run : Item
  optional : ℕ → Item

abbrev pub Pattern : Type 0
Pattern = List Item

-- A text as JavaScript holds it: code points above 65535 are two units.
unfoldable pub units : String → List ℕ
units String.[] = []
units (String.◌∷◌ c s) =
    let rest = units s in
    let high = code c - 65536 in
    if ltb (code c) 65536
    then code c ∷ rest
    else (55296 + high / 1024) ∷ (56320 + high % 1024) ∷ rest

letters_then : List ℕ → Pattern → Pattern
letters_then [] p = p
letters_then (c ∷ cs) p = letter c ∷ letters_then cs p

unfoldable pub words : String → Pattern → Pattern
unfolding letters_then units
words s p = letters_then (units s) p

abbrev pub gap : Pattern → Pattern
gap p = any_run ∷ p

unfoldable pub choice : String → Pattern → Pattern
unfolding units
choice s p = one_of (units s) ∷ p

unfoldable pub plural : ℕ → Pattern → Pattern
plural c p = optional c ∷ p

-- The case folding of ASCII.
abbrev pub fold : Bool → ℕ → ℕ
fold ignore_case c = if ignore_case && leb b'A' c && leb c b'Z' then c + 32 else c

abbrev pub same : Bool → ℕ → ℕ → Bool
same ignore_case c x = fold ignore_case c == fold ignore_case x

-- What `.` does not match.
abbrev pub is_line_end : ℕ → Bool
is_line_end x = x == 10 || x == 13 || x == 8232 || x == 8233

module _ (ignore_case : Bool) where
  -- A match of the whole pattern at the start of the text.
  unfoldable pub match_here : Pattern → List ℕ → Bool
  match_here [] xs = true
  match_here (letter c ∷ p) [] = false
  match_here (letter c ∷ p) (x ∷ xs) = same ignore_case c x && match_here p xs
  match_here (one_of cs ∷ p) [] = false
  match_here (one_of cs ∷ p) (x ∷ xs) = contains cs x && match_here p xs
  match_here (any_run ∷ p) [] = match_here p []
  match_here (any_run ∷ p) (x ∷ xs) =
      match_here p (x ∷ xs) || (not (is_line_end x) && match_here (any_run ∷ p) xs)
  match_here (optional c ∷ p) [] = match_here p []
  match_here (optional c ∷ p) (x ∷ xs) =
      match_here p (x ∷ xs) || (same ignore_case c x && match_here p xs)

  unfoldable pub search_from : Pattern → List ℕ → Bool
  search_from p [] = match_here p []
  search_from p (x ∷ xs) = match_here p (x ∷ xs) || search_from p xs

  -- `re.test(text)`
  unfoldable pub test : Pattern → String → Bool
  test p text = search_from p (units text)

  or-true : (a : Bool) {b : Bool} → (a || b) ≡ true → (a ≡ true) ⊎ (b ≡ true)
  or-true true h = inl refl
  or-true false h = inr h

  not-true : (a : Bool) → not a ≡ true → a ≡ false
  not-true true h = sym h
  not-true false h = refl

  -- The texts that a pattern stands for.
  pub data Denotes : Pattern → List ℕ → Type 0 where
    done : Denotes [] []
    by_letter :
        {c x : ℕ} {p : Pattern} {w : List ℕ}
        → same ignore_case c x ≡ true
        → Denotes p w
        → Denotes (letter c ∷ p) (x ∷ w)
    by_choice :
        {cs : List ℕ} {x : ℕ} {p : Pattern} {w : List ℕ}
        → contains cs x ≡ true
        → Denotes p w
        → Denotes (one_of cs ∷ p) (x ∷ w)
    run_ends : {p : Pattern} {w : List ℕ} → Denotes p w → Denotes (any_run ∷ p) w
    run_goes_on :
        {x : ℕ} {p : Pattern} {w : List ℕ}
        → is_line_end x ≡ false
        → Denotes (any_run ∷ p) w
        → Denotes (any_run ∷ p) (x ∷ w)
    left_out : {c : ℕ} {p : Pattern} {w : List ℕ} → Denotes p w → Denotes (optional c ∷ p) w
    taken :
        {c x : ℕ} {p : Pattern} {w : List ℕ}
        → same ignore_case c x ≡ true
        → Denotes p w
        → Denotes (optional c ∷ p) (x ∷ w)

  match_here_sound :
      (p : Pattern) (xs : List ℕ)
      → match_here p xs ≡ true
      → (w : List ℕ) × (rest : List ℕ) × (xs ≡ w ++ rest) × Denotes p w
  unfolding match_here
  match_here_sound [] xs h = ([], xs, refl, done)
  match_here_sound (letter c ∷ p) [] h = absurd (cc)
  match_here_sound (letter c ∷ p) (x ∷ xs) h =
      let (hit, later) = (and-eq-true_iff _ _).0 h in
      let (w, rest, e, d) = match_here_sound p xs later in
      (x ∷ w, rest, ap (◌∷◌ x) e, by_letter hit d)
  match_here_sound (one_of cs ∷ p) [] h = absurd (cc)
  match_here_sound (one_of cs ∷ p) (x ∷ xs) h =
      let (hit, later) = (and-eq-true_iff _ _).0 h in
      let (w, rest, e, d) = match_here_sound p xs later in
      (x ∷ w, rest, ap (◌∷◌ x) e, by_choice hit d)
  match_here_sound (any_run ∷ p) [] h =
      let (w, rest, e, d) = match_here_sound p [] h in (w, rest, e, run_ends d)
  match_here_sound (any_run ∷ p) (x ∷ xs) h = elim (or-true (match_here p (x ∷ xs)) h) [
    | inl ends ↦ let (w, rest, e, d) = match_here_sound p (x ∷ xs) ends in (w, rest, e, run_ends d)
    | inr on ↦
        let (more, later) = (and-eq-true_iff _ _).0 on in
        let (w, rest, e, d) = match_here_sound (any_run ∷ p) xs later in
        (x ∷ w, rest, ap (◌∷◌ x) e, run_goes_on (not-true (is_line_end x) more) d)
  ]
  match_here_sound (optional c ∷ p) [] h =
      let (w, rest, e, d) = match_here_sound p [] h in (w, rest, e, left_out d)
  match_here_sound (optional c ∷ p) (x ∷ xs) h = elim (or-true (match_here p (x ∷ xs)) h) [
    | inl out ↦ let (w, rest, e, d) = match_here_sound p (x ∷ xs) out in (w, rest, e, left_out d)
    | inr on ↦
        let (hit, later) = (and-eq-true_iff _ _).0 on in
        let (w, rest, e, d) = match_here_sound p xs later in
        (x ∷ w, rest, ap (◌∷◌ x) e, taken hit d)
  ]

  left_out_here :
      (c : ℕ) (p : Pattern) (xs : List ℕ)
      → match_here p xs ≡ true
      → match_here (optional c ∷ p) xs ≡ true
  unfolding match_here
  left_out_here c p [] h = h
  left_out_here c p (x ∷ xs) h = rw h

  run_ends_here :
      (p : Pattern) (xs : List ℕ) → match_here p xs ≡ true → match_here (any_run ∷ p) xs ≡ true
  unfolding match_here
  run_ends_here p [] h = h
  run_ends_here p (x ∷ xs) h = rw h

  match_here_complete :
      {p : Pattern} {w : List ℕ} (rest : List ℕ) → Denotes p w → match_here p (w ++ rest) ≡ true
  unfolding match_here
  match_here_complete rest done = refl
  match_here_complete rest (by_letter hit d) = rw (hit, match_here_complete rest d)
  match_here_complete rest (by_choice hit d) = rw (hit, match_here_complete rest d)
  match_here_complete rest (run_ends {p} {w} d) =
      run_ends_here p (w ++ rest) (match_here_complete rest d)
  match_here_complete rest (run_goes_on more d) = ground (arith, match_here_complete rest d)
  match_here_complete rest (left_out {c} {p} {w} d) =
      left_out_here c p (w ++ rest) (match_here_complete rest d)
  match_here_complete rest (taken hit d) = ground (arith, match_here_complete rest d)

  -- The text has a part that the pattern stands for.
  abbrev pub Occurs : Pattern → List ℕ → Type 0
  Occurs p xs =
      (before : List ℕ) × (w : List ℕ) × (rest : List ℕ) × (xs ≡ before ++ (w ++ rest))
      × Denotes p w

  search_from_sound : (p : Pattern) (xs : List ℕ) → search_from p xs ≡ true → Occurs p xs
  unfolding search_from
  search_from_sound p [] h = let (w, rest, e, d) = match_here_sound p [] h in ([], w, rest, e, d)
  search_from_sound p (x ∷ xs) h = elim (or-true (match_here p (x ∷ xs)) h) [
    | inl here ↦ let (w, rest, e, d) = match_here_sound p (x ∷ xs) here in ([], w, rest, e, d)
    | inr later ↦
        let (before, w, rest, e, d) = search_from_sound p xs later in
        (x ∷ before, w, rest, ap (◌∷◌ x) e, d)
  ]

  search_here : (p : Pattern) (xs : List ℕ) → match_here p xs ≡ true → search_from p xs ≡ true
  unfolding search_from
  search_here p [] h = h
  search_here p (x ∷ xs) h = rw h

  search_from_complete :
      (p : Pattern) (before : List ℕ) (xs : List ℕ)
      → match_here p xs ≡ true
      → search_from p (before ++ xs) ≡ true
  unfolding search_from
  search_from_complete p [] xs h = search_here p xs h
  search_from_complete p (x ∷ before) xs h = ground (arith, search_from_complete p before xs h)

  -- The search succeeds exactly on the texts that hold, somewhere, a part that the pattern stands
  -- for, in the meaning of the items: a letter (in either case under the flag), one of a set, any run
  -- without a line end, an optional letter.
  pub test_iff : (p : Pattern) (text : String) → (test p text ≡ true) ↔ Occurs p (units text)
  unfolding test
  test_iff p text = (
    search_from_sound p (units text),
    λ o.
        subst (λ xs. search_from p xs ≡ true) (sym o.3)
          (search_from_complete p o.0 (o.1 ++ o.2) (match_here_complete o.2 o.4)),
  )
