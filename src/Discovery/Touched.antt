-- ===== src/Discovery/Touched.antt =====
-- What a sequence of change events does to one row.
use freellm_gateway.Base.{
  ℕ, String, false, List, [], ◌∷◌, ◌++◌, ◌≡◌, refl, ◌∙◌, ap, arith, All, ◌==◌, eq_nat, eq_string,
  if◌then◌else◌,
}
use freellm_gateway.Status.{ModelStatus, active, status_eq}
use freellm_gateway.Discovery.{
  Codec, DiscoveredModel, ModelRow, ModelChangeEvent, added, removed, paid_now, context_changed,
  capability_changed, status_changed, is_paid_now, is_gone, caps_differ, row_events,
}
use freellm_gateway.Discovery.Apply.{touch}

module _ (C : Codec) (new_id : String → String) (now : ℕ) where
  abbrev pub touch_all : List (ModelChangeEvent C) → ModelRow C → ModelRow C
  touch_all [] r = r
  touch_all (ev ∷ evs) r = touch_all evs (touch C new_id now ev r)

  pub touch_all-append :
      (es fs : List (ModelChangeEvent C)) (r : ModelRow C)
      → touch_all (es ++ fs) r ≡ touch_all fs (touch_all es r)
  touch_all-append [] fs r = refl
  touch_all-append (e ∷ es) fs r = touch_all-append es fs (touch C new_id now e r)

  -- The id that an event is about.
  abbrev pub Avoids : String → ModelChangeEvent C → Type 0
  Avoids id (added dm) = Unit
  Avoids id (removed other) = (id == other) ≡ false
  Avoids id (paid_now other p) = (id == other) ≡ false
  Avoids id (context_changed other p n) = (id == other) ≡ false
  Avoids id (capability_changed other p n g l) = (id == other) ≡ false
  Avoids id (status_changed other p n) = (id == other) ≡ false

  touch-Avoids :
      (ev : ModelChangeEvent C) (r : ModelRow C) → Avoids r.id ev → touch C new_id now ev r ≡ r
  unfolding touch
  touch-Avoids (added dm) r h = refl
  touch-Avoids (removed other) r h = rw h refl
  touch-Avoids (paid_now other p) r h = rw h refl
  touch-Avoids (context_changed other p n) r h = rw h refl
  touch-Avoids (capability_changed other p n g l) r h = rw h refl
  touch-Avoids (status_changed other p n) r h = rw h refl

  pub touch_all-Avoids :
      (evs : List (ModelChangeEvent C)) (r : ModelRow C)
      → All (Avoids r.id) evs
      → touch_all evs r ≡ r
  touch_all-Avoids [] r h = refl
  touch_all-Avoids (ev ∷ evs) r h =
      ap (touch_all evs) (touch-Avoids ev r h.0) ∙ touch_all-Avoids evs r h.1

  -- What a listed model makes of its row.
  abbrev pub refreshed : DiscoveredModel C → ModelRow C → ModelRow C
  refreshed dm r = record r {
    context_length = dm.context_length;
    capabilities_json =
        if caps_differ C dm r then C.stringify dm.capabilities else r.capabilities_json;
    is_free = if is_paid_now C dm r then false else r.is_free;
    pricing_json = if is_paid_now C dm r then dm.pricing else r.pricing_json;
    status =
        if is_gone C r.status
        then active
        else if is_paid_now C dm r
        then ModelStatus.paid_now
        else r.status;
  }

  pub touch_all-row_events :
      (dm : DiscoveredModel C) (r : ModelRow C) → touch_all (row_events C dm r) r ≡ refreshed dm r
  unfolding row_events touch
  touch_all-row_events dm r = ground (
    arith,
    (eq_string.agree_iff r.id r.id).1 refl,
    eq_nat.agree_iff r.context_length dm.context_length,
  )

  pub row_events-Avoids :
      (id : String) (dm : DiscoveredModel C) (q : ModelRow C)
      → (id == q.id) ≡ false
      → All (Avoids id) (row_events C dm q)
  unfolding row_events
  row_events-Avoids id dm q h = ground (arith, h)
