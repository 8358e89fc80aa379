-- ===== src/Discovery/Apply.antt =====
-- `applyDiff` of apps/api/src/services/model-discovery.service.ts on the rows of a provider's models:
-- what each event does, and the touch of `lastSeenAt` at the end. The id of a new row is an argument;
-- the rows of `error_events` and of scores that go with an event are left out.
use freellm_gateway.Base.{
  ℕ, String, false, none, some, List, [], ◌∷◌, ◌++◌, map, ◌==◌, eq_string, if◌then◌else◌,
}
use freellm_gateway.Status.{ModelStatus, active, discovery_missing, next_model_status}
use freellm_gateway.Discovery.{
  Codec, DiscoveredModel, ModelRow, ModelChangeEvent, added, removed, paid_now, context_changed,
  capability_changed, status_changed, is_free_class, seen,
}

module _ (C : Codec) (new_id : String → String) (now : ℕ) where
  abbrev pub new_row : DiscoveredModel C → ModelRow C
  new_row dm = record {
    id = new_id dm.upstream_id;
    upstream_id = dm.upstream_id;
    context_length = dm.context_length;
    is_free = is_free_class dm.classification;
    pricing_json = dm.pricing;
    capabilities_json = C.stringify dm.capabilities;
    status = active;
    removed_at = none;
    last_seen_at = some now;
  }

  -- What an event writes into the row that has its id.
  unfoldable pub touch : ModelChangeEvent C → ModelRow C → ModelRow C
  touch (added dm) r = r
  touch (removed id) r =
      if r.id == id
      then record r {
        status = (next_model_status active discovery_missing).to;
        removed_at = some now;
      }
      else r
  touch (paid_now id pricing) r =
      if r.id == id
      then record r { status = ModelStatus.paid_now; is_free = false; pricing_json = pricing }
      else r
  touch (context_changed id previous new) r =
      if r.id == id then record r { context_length = new } else r
  touch (capability_changed id previous new gains losses) r =
      if r.id == id then record r { capabilities_json = C.stringify new } else r
  touch (status_changed id previous new) r = if r.id == id then record r { status = new } else r

  abbrev pub created : ModelChangeEvent C → List (ModelRow C)
  created (added dm) = new_row dm ∷ []
  created (removed id) = []
  created (paid_now id pricing) = []
  created (context_changed id previous new) = []
  created (capability_changed id previous new gains losses) = []
  created (status_changed id previous new) = []

  unfoldable pub apply_events : List (ModelChangeEvent C) → List (ModelRow C) → List (ModelRow C)
  apply_events [] table = table
  apply_events (ev ∷ evs) table = apply_events evs (map (touch ev) table ++ created ev)

  abbrev pub touch_seen : List (DiscoveredModel C) → ModelRow C → ModelRow C
  touch_seen discovered r =
      if seen C discovered r.upstream_id then record r { last_seen_at = some now } else r

  unfoldable pub apply_diff :
      List (DiscoveredModel C) → List (ModelChangeEvent C) → List (ModelRow C) → List (ModelRow C)
  apply_diff discovered events table = map (touch_seen discovered) (apply_events events table)
