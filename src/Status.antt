-- ===== src/Status.antt =====
-- apps/api/src/lib/state-machine/model-status.ts
pub mod Laws
use freellm_gateway.Base.{
  ℕ, String, Bool, true, false, Option, none, some, List, [], ◌∷◌, map, ◌≡◌, refl, ◌↔◌, StrictEq,
  ◌==◌, if◌then◌else◌, contains, nat_beq, arith,
}

-- `ModelStatus` of packages/shared/src/types.ts.
pub data ModelStatus : Type 0 where
  active degraded rate_limited disabled removed paid_now : ModelStatus

abbrev pub ordinal : ModelStatus → ℕ
ordinal active = 0
ordinal degraded = 1
ordinal rate_limited = 2
ordinal disabled = 3
ordinal removed = 4
ordinal paid_now = 5

pub status_beq_iff : (a b : ModelStatus) → (nat_beq (ordinal a) (ordinal b) ≡ true) ↔ (a ≡ b)
status_beq_iff a b = ground arith

instance abbrev pub status_eq : StrictEq ModelStatus
status_eq = record { agree = λ a b. nat_beq (ordinal a) (ordinal b); agree_iff = status_beq_iff }

pub data Trigger : Type 0 where
  discovery_first_seen discovery_still_present discovery_missing : Trigger
  discovery_pricing_now_paid discovery_pricing_returned_free : Trigger
  discovery_capability_changed : Trigger
  route_success route_rate_limited route_unavailable route_recovered : Trigger
  manual_disable manual_enable manual_blacklist : Trigger

-- `ModelStatus[] | '*'`
pub data Sources : Type 0 where
  anything : Sources
  only : List ModelStatus → Sources

pub record TransitionRule : Type 0 where
  pub to : ModelStatus
  pub from : Sources

abbrev rule : ModelStatus → Sources → TransitionRule
rule to from = record { to = to; from = from }

unfoldable pub rules : Trigger → TransitionRule
rules discovery_first_seen = rule active anything
rules discovery_still_present = rule active (only (active ∷ degraded ∷ rate_limited ∷ []))
rules discovery_missing = rule removed anything
rules discovery_pricing_now_paid = rule paid_now anything
rules discovery_pricing_returned_free = rule active (only (paid_now ∷ disabled ∷ []))
rules discovery_capability_changed = rule active (only (active ∷ degraded ∷ rate_limited ∷ []))
rules route_success = rule active (only (degraded ∷ rate_limited ∷ []))
rules route_rate_limited = rule rate_limited (only (active ∷ degraded ∷ []))
rules route_unavailable = rule degraded (only (active ∷ rate_limited ∷ []))
rules route_recovered = rule active (only (degraded ∷ rate_limited ∷ disabled ∷ []))
rules manual_disable = rule disabled anything
rules manual_enable = rule active anything
rules manual_blacklist = rule disabled anything

pub record TransitionResult : Type 0 where
  pub changed : Bool
  pub from : ModelStatus
  pub to : ModelStatus
  pub trigger : Trigger
  pub reason : Option String

-- `rule.from === '*' ? true : rule.from.includes(current)`
abbrev pub permits : Sources → ModelStatus → Bool
permits anything s = true
permits (only froms) s = contains froms s

unfoldable pub next_model_status : ModelStatus → Trigger → TransitionResult
unfolding rules
next_model_status current trigger =
    if permits (rules trigger).from current
    then if (rules trigger).to == current then kept none else record {
      changed = true;
      from = current;
      to = (rules trigger).to;
      trigger = trigger;
      reason = none;
    }
    else kept (some "transition not allowed")
  where
    kept : Option String → TransitionResult
    kept reason = record {
      changed = false;
      from = current;
      to = current;
      trigger = trigger;
      reason = reason;
    }

unfoldable pub is_terminal_status : ModelStatus → Bool
is_terminal_status s = s == removed

-- `Object.keys(RULES)`, in the order of the literal.
abbrev pub triggers : List Trigger
triggers =
    discovery_first_seen ∷ discovery_still_present ∷ discovery_missing ∷ discovery_pricing_now_paid
    ∷ discovery_pricing_returned_free ∷ discovery_capability_changed ∷ route_success
    ∷ route_rate_limited ∷ route_unavailable ∷ route_recovered ∷ manual_disable ∷ manual_enable
    ∷ manual_blacklist ∷ []

unfoldable pub list_allowed_transitions : List (Trigger × TransitionRule)
unfolding rules
list_allowed_transitions = map (λ t. (t, rules t)) triggers

-- A row's status after a sequence of triggers.
unfoldable pub run : ModelStatus → List Trigger → ModelStatus
run s [] = s
run s (t ∷ ts) = run (next_model_status s t).to ts
