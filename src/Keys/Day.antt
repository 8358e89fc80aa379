-- ===== src/Keys/Day.antt =====
-- The daily quota of a key over any sequence of what one day brings.
use freellm_gateway.Base.{
  ℕ, suc, ◌+◌, ◌≤◌, String, Bool, true, false, Option, none, some, List, [], ◌∷◌, ◌≡◌, inl, inr,
  arith, All, find-All, if◌then◌else◌, ◌==◌, eq_string, ap, subst,
}
use freellm_gateway.Keys.{AuthState, record_token_usage, enforce_daily_embeddings}
use freellm_gateway.Keys.Service.{Codec, KeyRow, resolve_by_secret_with_tenancy}
use freellm_gateway.Keys.Hook.{
  Checked, refused, passed, on_request, Request, Admission, VirtualKey, admitted, not_guarded,
}
use freellm_gateway.Keys.Refusals.{Settled, on_request-Settled}
use freellm_gateway.Keys.Quota.{used, record_token_usage-Keeps, enforce_daily_embeddings-Keeps}
use freellm_gateway.Keys.Charge.{Counts, charges-used}

if-some :
    {A : Type 0} (b : Bool) (o : Option A) {x : A} → (if b then o else none) ≡ some x → o ≡ some x
if-some true o e = e
if-some false o e = cc

module _ (C : Codec) where
  -- What a day brings: requests, on whatever the table is by then, and the usage that answers report.
  pub data Event : Type 0 where
    request : List (KeyRow C) → ℕ → Request → Event
    tokens : String → ℕ → Event
    embeddings : String → Option ℕ → Event

  abbrev pub admissions_of : String → Checked Admission → ℕ
  admissions_of key (refused k why) = 0
  admissions_of key (passed not_guarded) = 0
  admissions_of key (passed (admitted vk)) = if vk.id == key then 1 else 0

  -- An event, and how many requests of the key it admits.
  unfoldable pub happen : String → String → Event → AuthState → AuthState × ℕ
  happen day key (request table now req) s =
      ((on_request C table now day req s).0, admissions_of key (on_request C table now day req s).1)
  happen day key (tokens other n) s = (record_token_usage other n day s, 0)
  happen day key (embeddings other limit) s = ((enforce_daily_embeddings other limit day s).0, 0)

  unfoldable pub admissions : String → String → List Event → AuthState → ℕ
  admissions day key [] s = 0
  admissions day key (e ∷ es) s =
      (happen day key e s).1 + admissions day key es (happen day key e s).0

  -- The tables give the key the daily limit n.
  abbrev pub IsLimited : String → ℕ → Event → Type 0
  IsLimited key n (request table now req) =
      All (λ (r : KeyRow C). (r.id == key) ≡ true → r.columns.max_requests_per_day ≡ some n) table
  IsLimited key n (tokens other m) = Unit
  IsLimited key n (embeddings other limit) = Unit

  -- An event admits no more than it counts, and the count stays within the limit.
  abbrev pub Within : String → String → ℕ → ℕ → AuthState × ℕ → Type 0
  Within day key n before (s', more) = (more + before ≤ used day key s') × (used day key s' ≤ n)

  found-All :
      (table : List (KeyRow C)) (P : KeyRow C → Type 0) (secret : List ℕ) (row : KeyRow C)
      → All P table
      → resolve_by_secret_with_tenancy C table secret ≡ some row
      → P row
  unfolding resolve_by_secret_with_tenancy
  found-All table P secret row h e = find-All P _ table h (if-some _ _ e)

  request-Within :
      (day key : String) (n : ℕ) (table : List (KeyRow C)) (now : ℕ) (req : Request) (s : AuthState)
      → All
          (λ (r : KeyRow C). (r.id == key) ≡ true → r.columns.max_requests_per_day ≡ some (suc n))
          table
      → used day key s ≤ suc n
      → (r : AuthState × Checked Admission) → Settled C table now day req s r
      → Within day key (suc n) (used day key s) (r.0, admissions_of key r.1)
  request-Within day key n table now req s lim below (s', refused k why) (inl (e, (row, ok, run))) =
      let c =
        subst (Counts day key row.id (suc n) (used day key s)) run
          (charges-used C day key n now row s (found-All table _ _ row lim ok.found) below) in
      ground (arith, c)
  request-Within day key n table now req s lim below (s', refused k why) (inr (e, same)) =
      (omega (arith, ap (used day key) same), rw same below)
  request-Within day key n table now req s lim below (s', passed not_guarded) (e, same) =
      (omega (arith, ap (used day key) same), rw same below)
  request-Within day key n table now req s lim below (s', passed (admitted vk))
        (row, ok, same, run) =
      let c =
        subst (Counts day key row.id (suc n) (used day key s)) run
          (charges-used C day key n now row s (found-All table _ _ row lim ok.found) below) in
      ground (arith, c, ap (λ (v : VirtualKey). v.id) same)

  happen-Within :
      (day key : String) (n : ℕ) (e : Event) (s : AuthState)
      → IsLimited key (suc n) e
      → used day key s ≤ suc n
      → Within day key (suc n) (used day key s) (happen day key e s)
  unfolding happen
  happen-Within day key n (request table now req) s lim below =
      request-Within day key n table now req s lim below _
        (on_request-Settled C table now day req s)
  happen-Within day key n (tokens other m) s lim below =
      ground (arith, record_token_usage-Keeps day key other m s)
  happen-Within day key n (embeddings other limit) s lim below =
      ground (arith, enforce_daily_embeddings-Keeps day key other limit s)

  -- In any sequence of a day's requests, token reports and embeddings calls, on tables that may
  -- change between them but allow the key n + 1 requests a day, a key whose counter starts within
  -- that limit is admitted at most as often as the counter has left.
  pub admissions_le :
      (day key : String) (n : ℕ) (es : List Event) (s : AuthState)
      → All (IsLimited key (suc n)) es
      → used day key s ≤ suc n
      → admissions day key es s + used day key s ≤ suc n
  unfolding admissions
  admissions_le day key n [] s lim below = omega (arith, below)
  admissions_le day key n (e ∷ es) s lim below =
      let step = happen-Within day key n e s lim.0 below in
      omega (arith, step, admissions_le day key n es (happen day key e s).0 lim.1 step.1)
