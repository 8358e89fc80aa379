-- ===== src/Discovery/Timeline.antt =====
-- `diffAdjacentSnapshots` of apps/api/src/services/snapshot-diff.service.ts, over the stored
-- snapshots of a model, the latest first; the capabilities in a snapshot's payload are taken as read.
use freellm_gateway.Base.{
  true≢false, ℕ, String, Bool, true, false, not, ◌||◌, List, [], ◌∷◌, ◌++◌, filter, map, take,
  eq_string, length, ◌≡◌, ◌↔◌, refl, sym, subst, ◌∙◌, inl, inr, arith, All, ltb, ◌==◌, eq_nat,
  if◌then◌else◌, Bool-cases,
}
use freellm_gateway.Base.Sort.{sort_by}
use freellm_gateway.Discovery.{ModelCapabilities, gained, changed, is_empty, diff_capabilities}

pub record Snapshot : Type 0 where
  pub model_id : String
  pub taken_at : ℕ
  pub is_free : Bool
  pub context_length : ℕ
  pub capabilities : ModelCapabilities

pub record AdjacentSnapshotChange : Type 0 where
  pub from_taken_at : ℕ
  pub to_taken_at : ℕ
  pub caps_added : List String
  pub caps_removed : List String
  pub context_from : ℕ
  pub context_to : ℕ
  pub free_from : Bool
  pub free_to : Bool

abbrev pub same_bool : Bool → Bool → Bool
same_bool true b = b
same_bool false b = not b

abbrev pub differs : Snapshot → Snapshot → Bool
differs prev cur =
    not (is_empty (diff_capabilities prev.capabilities cur.capabilities).0)
    || not (is_empty (diff_capabilities prev.capabilities cur.capabilities).1)
    || not (prev.context_length == cur.context_length)
    || not (same_bool prev.is_free cur.is_free)

abbrev pub change_of : Snapshot → Snapshot → AdjacentSnapshotChange
change_of prev cur = record {
  from_taken_at = prev.taken_at;
  to_taken_at = cur.taken_at;
  caps_added = (diff_capabilities prev.capabilities cur.capabilities).0;
  caps_removed = (diff_capabilities prev.capabilities cur.capabilities).1;
  context_from = prev.context_length;
  context_to = cur.context_length;
  free_from = prev.is_free;
  free_to = cur.is_free;
}

-- The loop from the second snapshot on, with the one before.
unfoldable pub changes_from : Snapshot → List Snapshot → List AdjacentSnapshotChange
changes_from prev [] = []
changes_from prev (cur ∷ rows) =
    let rest = changes_from cur rows in if differs prev cur then change_of prev cur ∷ rest else rest

unfoldable pub changes : List Snapshot → List AdjacentSnapshotChange
unfolding changes_from
changes [] = []
changes (first ∷ rows) = changes_from first rows

abbrev pub reverse : List Snapshot → List Snapshot
reverse [] = []
reverse (x ∷ xs) = reverse xs ++ (x ∷ [])

-- The last `limit` snapshots of a model, in the order of time.
unfoldable pub recent : String → ℕ → List Snapshot → List Snapshot
unfolding sort_by
recent model_id limit table = reverse (
    take limit (
      sort_by (λ (a b : Snapshot). ltb b.taken_at a.taken_at)
        (filter (λ s. s.model_id == model_id) table)))

pub record SnapshotTimeline : Type 0 where
  pub total : ℕ
  pub snapshots : List (ℕ × Bool × ℕ)
  pub changes_seen : List AdjacentSnapshotChange

abbrev pub diff_adjacent_snapshots : String → ℕ → List Snapshot → SnapshotTimeline
diff_adjacent_snapshots model_id limit table =
    let rows = recent model_id limit table in
    record {
      total = length rows;
      snapshots = map (λ (r : Snapshot). (r.taken_at, r.is_free, r.context_length)) rows;
      changes_seen = changes rows;
    }

-- Two snapshots say the same of the model.
abbrev pub Agree : Snapshot → Snapshot → Type 0
Agree a b =
    (a.capabilities ≡ b.capabilities)
    × (a.context_length ≡ b.context_length)
    × (a.is_free ≡ b.is_free)

empty-append :
    (xs ys : List String) → is_empty (xs ++ ys) ≡ true → (is_empty xs ≡ true) × (is_empty ys ≡ true)
empty-append [] ys h = (refl, h)
empty-append (x ∷ xs) ys h = absurd (ground (arith, h))

-- A capability that is neither gained nor lost is the same.
unchanged :
    (name : String) (x y : Bool)
    → is_empty (changed name x y) ≡ true
    → is_empty (changed name y x) ≡ true
    → x ≡ y
unchanged name x y h k = ground (arith, h, k)

-- No capability is gained and none is lost only between equal capabilities.
gained_none :
    (a b : ModelCapabilities) → is_empty (gained a b) ≡ true → is_empty (gained b a) ≡ true → a ≡ b
unfolding gained
gained_none a b h k =
    let (h1, r1) = empty-append (changed "stream" a.stream b.stream) _ h in
    let (k1, q1) = empty-append (changed "stream" b.stream a.stream) _ k in
    let (h2, r2) = empty-append (changed "json" a.json b.json) _ r1 in
    let (k2, q2) = empty-append (changed "json" b.json a.json) _ q1 in
    let (h3, r3) = empty-append (changed "tools" a.tools b.tools) _ r2 in
    let (k3, q3) = empty-append (changed "tools" b.tools a.tools) _ q2 in
    let (h4, r4) = empty-append (changed "vision" a.vision b.vision) _ r3 in
    let (k4, q4) = empty-append (changed "vision" b.vision a.vision) _ q3 in
    let (h5, r5) = empty-append (changed "audio" a.audio b.audio) _ r4 in
    let (k5, q5) = empty-append (changed "audio" b.audio a.audio) _ q4 in
    let (h6, h7) = empty-append (changed "reasoning" a.reasoning b.reasoning) _ r5 in
    let (k6, k7) = empty-append (changed "reasoning" b.reasoning a.reasoning) _ q5 in
    λ i. record {
      stream = unchanged "stream" a.stream b.stream h1 k1 i;
      json = unchanged "json" a.json b.json h2 k2 i;
      tools = unchanged "tools" a.tools b.tools h3 k3 i;
      vision = unchanged "vision" a.vision b.vision h4 k4 i;
      audio = unchanged "audio" a.audio b.audio h5 k5 i;
      reasoning = unchanged "reasoning" a.reasoning b.reasoning h6 k6 i;
      long_context = unchanged "longContext" a.long_context b.long_context h7 k7 i;
    }

gained_same : (a : ModelCapabilities) → is_empty (gained a a) ≡ true
unfolding gained
gained_same a = ground arith

all_four :
    (p q r s : Bool)
    → ((not p || not q || not r || not s) ≡ false)
      ↔ ((p ≡ true) × (q ≡ true) × (r ≡ true) × (s ≡ true))
all_four p q r s = (λ h. ground (arith, h), λ h. ground (arith, h))

same_bool_iff : (a b : Bool) → (same_bool a b ≡ true) ↔ (a ≡ b)
same_bool_iff a b = (λ h. ground (arith, h), λ h. ground (arith, h))

-- The test of the loop: whether two snapshots say the same.
differs_iff : (a b : Snapshot) → (differs a b ≡ false) ↔ Agree a b
unfolding diff_capabilities
differs_iff a b =
    let test =
      all_four (is_empty (gained a.capabilities b.capabilities))
        (is_empty (gained b.capabilities a.capabilities)) (a.context_length == b.context_length)
        (same_bool a.is_free b.is_free) in
    (
      λ h.
          let (none_gained, none_lost, context, free) = test.0 h in
          (
            gained_none a.capabilities b.capabilities none_gained none_lost,
            (eq_nat.agree_iff a.context_length b.context_length).0 context,
            (same_bool_iff a.is_free b.is_free).0 free,
          ),
      λ (caps, context, free). test.1 (
        subst (λ c. is_empty (gained a.capabilities c) ≡ true) caps (gained_same a.capabilities),
        subst (λ c. is_empty (gained c a.capabilities) ≡ true) caps (gained_same a.capabilities),
        (eq_nat.agree_iff a.context_length b.context_length).1 context,
        (same_bool_iff a.is_free b.is_free).1 free,
      ),
    )

Agree-trans : (a b c : Snapshot) → Agree a b → Agree b c → Agree a c
Agree-trans a b c (p, q, r) (s, t, u) = (p ∙ s, q ∙ t, r ∙ u)

Agree-sym : (a b : Snapshot) → Agree a b → Agree b a
Agree-sym a b (p, q, r) = (sym p, sym q, sym r)

All-Agree :
    (a b : Snapshot) (rows : List Snapshot) → Agree a b → All (Agree b) rows → All (Agree a) rows
All-Agree a b [] same h = tt
All-Agree a b (c ∷ rows) same h = (Agree-trans a b c same h.0, All-Agree a b rows same h.1)

changes_from-Agree :
    (first : Snapshot) (rows : List Snapshot)
    → (changes_from first rows ≡ []) ↔ All (Agree first) rows
unfolding changes_from
changes_from-Agree first [] = (λ h. tt, λ h. refl)
changes_from-Agree first (cur ∷ rows) =
    let ih = changes_from-Agree cur rows in
    elim (Bool-cases (differs first cur)) [
      | inl e ↦ rw e (
        λ h. absurd (ground (arith, h)),
        λ h. absurd (true≢false (sym e ∙ (differs_iff first cur).1 h.0)),
      )
      | inr e ↦
          let same = (differs_iff first cur).0 e in
          rw e (
            λ h. (same, All-Agree first cur rows same (ih.0 h)),
            λ h. ih.1 (All-Agree cur first rows (Agree-sym first cur same) h.1),
          )
    ]

-- The timeline of a model shows no change exactly where all its snapshots have the capabilities,
-- the context length and the free mark of the first.
pub changes-Agree :
    (first : Snapshot) (rows : List Snapshot)
    → (changes (first ∷ rows) ≡ []) ↔ All (Agree first) rows
unfolding changes
changes-Agree first rows = changes_from-Agree first rows
