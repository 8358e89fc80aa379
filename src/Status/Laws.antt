-- ===== src/Status/Laws.antt =====
-- What the status machine guarantees.
use freellm_gateway.Base.{true, false, List, [], ◌∷◌, ◌≡◌, refl, ◌≢◌, ◌↔◌, ◌⊎◌, All, arith}
use freellm_gateway.Status.{
  ModelStatus, disabled, removed, paid_now, Trigger, route_success, route_rate_limited,
  route_unavailable, rules, permits, next_model_status, run,
}

-- `changed` is reported exactly when the status moves, and then the trigger's rule permits the
-- current status and the new status is the rule's target.
pub next_model_status-changed_iff :
    (s : ModelStatus) (t : Trigger)
    → ((next_model_status s t).changed ≡ true) ↔ (
        (permits (rules t).from s ≡ true)
        × ((next_model_status s t).to ≡ (rules t).to)
        × ((next_model_status s t).to ≢ s))
unfolding next_model_status
next_model_status-changed_iff s t = (ground arith, ground arith)

-- A trigger that is repeated changes nothing the second time.
pub next_model_status_idempotent :
    (s : ModelStatus) (t : Trigger)
    → (next_model_status (next_model_status s t).to t).changed ≡ false
unfolding next_model_status
next_model_status_idempotent s t = ground arith

-- The statuses that routing traffic does not touch.
abbrev pub IsParked : ModelStatus → Type 0
IsParked s = (s ≡ removed) ⊎ (s ≡ paid_now) ⊎ (s ≡ disabled)

abbrev pub IsTraffic : Trigger → Type 0
IsTraffic t = (t ≡ route_success) ⊎ (t ≡ route_rate_limited) ⊎ (t ≡ route_unavailable)

next_model_status_parked :
    (s : ModelStatus) (t : Trigger) → IsParked s → IsTraffic t → (next_model_status s t).to ≡ s
unfolding next_model_status
next_model_status_parked s t h k = ground arith

-- Whatever routing reports (success, rate limits, outages), in any number and order, a model that
-- is removed, paid or disabled keeps its status.
run_parked : (s : ModelStatus) (ts : List Trigger) → IsParked s → All IsTraffic ts → run s ts ≡ s
unfolding run
run_parked s [] h k = refl
run_parked s (t ∷ ts) h k = rw (next_model_status_parked s t h k.0) (run_parked s ts h k.1)
