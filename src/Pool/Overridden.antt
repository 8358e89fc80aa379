-- ===== src/Pool/Overridden.antt =====
-- What the automatic blacklist means to the pool.
use freellm_gateway.Base.{
  ℕ, zero, suc, not, ◌||◌, ◌&&◌, Option, List, [], ◌∷◌, map, filter, take, ◌≡◌, refl, ap, ◌∙◌, ◌==◌,
  Bool-cases, inl, inr, All,
}
use freellm_gateway.Number.{Number}
use freellm_gateway.Status.{ModelStatus, removed, disabled, active, status_eq}
use freellm_gateway.Scorer.{Capabilities}
use freellm_gateway.Blacklist.{ModelRow, Options, Log, evaluate_all}
use freellm_gateway.Blacklist.Sweep.{IsAlone, judged, is_given_up, evaluate_all-judged}
use freellm_gateway.Pool.{PoolRow, pool_model, is_selected, place_from, build_pool}

module _ (N : Number) {Json : Type 0} (parse : Json → Option Capabilities) where
  open N use {F}

  -- The rows with what a run of the blacklist has made of their columns.
  abbrev pub rejoin : List (PoolRow F Json) → List ModelRow → List (PoolRow F Json)
  rejoin [] ms = []
  rejoin (r ∷ rs) [] = []
  rejoin (r ∷ rs) (m ∷ ms) = record r { model = m } ∷ rejoin rs ms

  abbrev pub columns : List (PoolRow F Json) → List ModelRow
  columns = map (λ r. r.model)

  module _ (opts : Options) (logs : List Log) (now : ℕ) where
    abbrev judged_row : PoolRow F Json → PoolRow F Json
    judged_row r = record r { model = judged opts logs now r.model }

    rejoin-judged :
        (rows : List (PoolRow F Json))
        → rejoin rows (map (judged opts logs now) (columns rows)) ≡ map judged_row rows
    rejoin-judged [] = refl
    rejoin-judged (r ∷ rs) =
        ap (λ (xs : List (PoolRow F Json)). judged_row r ∷ xs) (rejoin-judged rs)

    judged-same :
        (m : ModelRow)
        → let j = judged opts logs now m in
          (j.id ≡ m.id)
          × (j.upstream_id ≡ m.upstream_id)
          × (j.status ≡ m.status)
          × (j.blacklisted ≡ m.blacklisted)
          × (j.whitelisted ≡ m.whitelisted)
    judged-same m = elim (Bool-cases (m.status == active && is_given_up opts logs now m)) [
      | inl e ↦ rw e (refl, refl, refl, refl, refl)
      | inr e ↦ rw e (refl, refl, refl, refl, refl)
    ]

    pool_model-judged :
        (place : ℕ) (r : PoolRow F Json)
        → pool_model N parse place (judged_row r) ≡ pool_model N parse place r
    unfolding pool_model
    pool_model-judged place r =
        let (id, upstream_id, status, blacklisted, whitelisted) = judged-same r.model in
        λ i. record (pool_model N parse place r) {
          model_id = id i;
          upstream_id = upstream_id i;
          status = status i;
          blacklisted = blacklisted i;
          whitelisted = whitelisted i;
        }

    filter-judged :
        (rows : List (PoolRow F Json))
        → filter (is_selected N parse) (map judged_row rows)
          ≡ map judged_row (filter (is_selected N parse) rows)
    filter-judged [] = refl
    filter-judged (r ∷ rs) =
        let same =
          ap (λ (s : ModelStatus). not (s == removed || s == disabled)) (judged-same r.model).2 in
        elim (Bool-cases (is_selected N parse r)) [
          | inl e ↦
              rw (same, e)
                (ap (λ (xs : List (PoolRow F Json)). judged_row r ∷ xs) (filter-judged rs))
          | inr e ↦ rw (same, e) (filter-judged rs)
        ]

    take-judged :
        (n : ℕ) (rows : List (PoolRow F Json))
        → take n (map judged_row rows) ≡ map judged_row (take n rows)
    take-judged zero rows = refl
    take-judged (suc n) [] = refl
    take-judged (suc n) (r ∷ rs) =
        ap (λ (xs : List (PoolRow F Json)). judged_row r ∷ xs) (take-judged n rs)

    place_from-judged :
        (place : ℕ) (rows : List (PoolRow F Json))
        → place_from N parse place (map judged_row rows) ≡ place_from N parse place rows
    unfolding place_from
    place_from-judged place [] = refl
    place_from-judged place (r ∷ rs) =
        rw (pool_model-judged place r, place_from-judged (suc place) rs) refl

    -- A run of the automatic blacklist, over any logs and in a table where an id belongs to one row,
    -- leaves the router's pool as it was: what it writes, `manualOverride`, is a column that the
    -- pool's query does not read.
    pub build_pool-evaluate_all :
        (rows : List (PoolRow F Json))
        → All (IsAlone (columns rows)) (columns rows)
        → build_pool N parse (rejoin rows (evaluate_all opts logs now (columns rows)).0)
          ≡ build_pool N parse rows
    unfolding build_pool
    build_pool-evaluate_all rows unique =
        ap (λ ms. place_from N parse 0 (take 800 (filter (is_selected N parse) (rejoin rows ms))))
          (evaluate_all-judged opts logs now (columns rows) unique)
        ∙ ap (λ rs. place_from N parse 0 (take 800 (filter (is_selected N parse) rs)))
            (rejoin-judged rows)
        ∙ ap (λ rs. place_from N parse 0 (take 800 rs)) (filter-judged rows)
        ∙ ap (place_from N parse 0) (take-judged 800 (filter (is_selected N parse) rows))
        ∙ place_from-judged 0 (take 800 (filter (is_selected N parse) rows))
