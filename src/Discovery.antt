-- ===== src/Discovery.antt =====
-- apps/api/src/services/snapshot-diff.service.ts: `diffSnapshots` over the models that a provider
-- lists and the rows of its models. The stored form of capabilities, with what writes and what reads
-- it, is a parameter, and so is that of prices. Apply has what
-- apps/api/src/services/model-discovery.service.ts does with the events; Cycle what the two do together.
pub mod Apply
pub mod Touched
pub mod Rows
pub mod Renewed
pub mod Removed
pub mod Cycle
pub mod Timeline
use freellm_gateway.Base.{
  ℕ, ◌+◌, String, Bool, true, false, not, ◌&&◌, ◌||◌, Option, none, some, List, [], ◌∷◌, ◌++◌, map,
  contains, length, ◌==◌, eq_nat, eq_string, if◌then◌else◌, is_some,
}
use freellm_gateway.Status.{ModelStatus, active, status_eq}

pub record ModelCapabilities : Type 0 where
  pub stream : Bool
  pub json : Bool
  pub tools : Bool
  pub vision : Bool
  pub audio : Bool
  pub reasoning : Bool
  pub long_context : Bool

-- `JSON.stringify` of capabilities, and `parseCapabilities`.
pub record Codec : Type 1 where
  pub Json : Type 0
  pub stringify : ModelCapabilities → Json
  pub parse : Json → ModelCapabilities

pub data FreeClassification : Type 0 where
  free paid suspected unknown : FreeClassification

abbrev pub is_paid : FreeClassification → Bool
is_paid paid = true
is_paid free = false
is_paid suspected = false
is_paid unknown = false

abbrev pub is_free_class : FreeClassification → Bool
is_free_class free = true
is_free_class suspected = false
is_free_class paid = false
is_free_class unknown = false

-- A capability by its name, where the two texts differ in it.
abbrev pub changed : String → Bool → Bool → List String
changed name from to = if not from && to then name ∷ [] else []

-- `diffCapabilities`: what the second has and the first has not.
unfoldable pub gained : ModelCapabilities → ModelCapabilities → List String
gained a b =
    changed "stream" a.stream b.stream
    ++ (changed "json" a.json b.json
        ++ (changed "tools" a.tools b.tools
            ++ (changed "vision" a.vision b.vision
                ++ (changed "audio" a.audio b.audio
                    ++ (changed "reasoning" a.reasoning b.reasoning
                        ++ changed "longContext" a.long_context b.long_context)))))

unfoldable pub diff_capabilities : ModelCapabilities → ModelCapabilities → List String × List String
unfolding gained
diff_capabilities previous next = (gained previous next, gained next previous)

abbrev pub is_empty : List String → Bool
is_empty [] = true
is_empty (x ∷ xs) = false

module _ (C : Codec) where
  open C use {Json}

  pub record DiscoveredModel : Type 0 where
    pub upstream_id : String
    pub context_length : ℕ
    pub classification : FreeClassification
    pub pricing : Option Json
    pub capabilities : ModelCapabilities

  pub record ModelRow : Type 0 where
    pub id : String
    pub upstream_id : String
    pub context_length : ℕ
    pub is_free : Bool
    pub pricing_json : Option Json
    pub capabilities_json : Json
    pub status : ModelStatus
    pub removed_at : Option ℕ
    pub last_seen_at : Option ℕ

  pub data ModelChangeEvent : Type 0 where
    added : DiscoveredModel → ModelChangeEvent
    removed : (model_id : String) → ModelChangeEvent
    paid_now : (model_id : String) (new_pricing : Option Json) → ModelChangeEvent
    context_changed : (model_id : String) (previous new : ℕ) → ModelChangeEvent
    capability_changed :
        (model_id : String) (previous new : ModelCapabilities) (gains losses : List String)
        → ModelChangeEvent
    status_changed : (model_id : String) (previous new : ModelStatus) → ModelChangeEvent

  -- `byUpstreamId.get`: a later row of the same upstream id stands in the map.
  unfoldable pub by_upstream_id : String → List ModelRow → Option ModelRow
  by_upstream_id u [] = none
  by_upstream_id u (r ∷ rs) = elim (by_upstream_id u rs) [
    | some q ↦ some q
    | none ↦ if r.upstream_id == u then some r else none
  ]

  abbrev pub is_gone : ModelStatus → Bool
  is_gone s = s == ModelStatus.removed || s == ModelStatus.paid_now

  abbrev pub is_paid_now : DiscoveredModel → ModelRow → Bool
  is_paid_now dm row = row.is_free && is_paid dm.classification

  abbrev pub caps_differ : DiscoveredModel → ModelRow → Bool
  caps_differ dm row =
      not (is_empty (diff_capabilities (C.parse row.capabilities_json) dm.capabilities).0)
      || not (is_empty (diff_capabilities (C.parse row.capabilities_json) dm.capabilities).1)

  abbrev pub pricing_events : DiscoveredModel → ModelRow → List ModelChangeEvent
  pricing_events dm row = if is_paid_now dm row then paid_now row.id dm.pricing ∷ [] else []

  abbrev pub context_events : DiscoveredModel → ModelRow → List ModelChangeEvent
  context_events dm row =
      if row.context_length == dm.context_length
      then []
      else context_changed row.id row.context_length dm.context_length ∷ []

  abbrev pub capability_events : DiscoveredModel → ModelRow → List ModelChangeEvent
  capability_events dm row =
      let previous = C.parse row.capabilities_json in
      if caps_differ dm row
      then capability_changed row.id previous dm.capabilities
          (diff_capabilities previous dm.capabilities).0
          (diff_capabilities previous dm.capabilities).1
        ∷ []
      else []

  abbrev pub status_events : DiscoveredModel → ModelRow → List ModelChangeEvent
  status_events dm row =
      if is_gone row.status then status_changed row.id row.status active ∷ [] else []

  -- The events of a model that has a row, in their order.
  unfoldable pub row_events : DiscoveredModel → ModelRow → List ModelChangeEvent
  row_events dm row =
      pricing_events dm row
      ++ (context_events dm row ++ (capability_events dm row ++ status_events dm row))

  unfoldable pub discovered_events : List ModelRow → DiscoveredModel → List ModelChangeEvent
  discovered_events existing dm = elim (by_upstream_id dm.upstream_id existing) [
    | none ↦ added dm ∷ []
    | some row ↦ row_events dm row
  ]

  abbrev pub seen : List DiscoveredModel → String → Bool
  seen [] u = false
  seen (dm ∷ dms) u = dm.upstream_id == u || seen dms u

  unfoldable pub removed_events : List DiscoveredModel → ModelRow → List ModelChangeEvent
  removed_events discovered row =
      if seen discovered row.upstream_id
      then []
      else if row.status == ModelStatus.removed
      then []
      else removed row.id ∷ []

  abbrev pub flat {ℓ} : {A : Type ℓ} → (A → List ModelChangeEvent) → List A → List ModelChangeEvent
  flat f [] = []
  flat f (x ∷ xs) = f x ++ flat f xs

  unfoldable pub diff_snapshots : List DiscoveredModel → List ModelRow → List ModelChangeEvent
  diff_snapshots discovered existing =
      flat (discovered_events existing) discovered ++ flat (removed_events discovered) existing
