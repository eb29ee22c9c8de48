-- ===== src/RoutingEngine/Resolve.antt =====
-- What `resolveRoute` finds.
use vbgw_pjsip_v.Common.{
  ◌≡◌, ◌⊎◌, ◌↔◌, inl, inr, refl, ap, Text, text_eq_iff, is_empty, List, [], ◌∷◌, ◌++◌, true, false,
  arith, Bool-cases,
}
use vbgw_pjsip_v.Common.{map, ◌∙◌}
use vbgw_pjsip_v.Common.Int.{ℤ}
use vbgw_pjsip_v.RoutingEngine.{
  RoutingEngine, ServiceRoute, ResolvedRoute, contains, accepts, resolve_among, resolve_route,
}

-- A text stands in a list.
abbrev pub In : Text → List Text → Type 0
In s [] = ⊥
In s (t ∷ ts) = (t ≡ s) ⊎ In s ts

pub contains_iff : (ts : List Text) (s : Text) → (contains ts s ≡ true) ↔ In s ts
unfolding contains
contains_iff [] s = ground arith
contains_iff (t ∷ ts) s = ground (arith, text_eq_iff t s, contains_iff ts s)

-- When a service takes a call: it is enabled, has the number, and names no stages and no gateways but
-- those of the call.
pub record Takes (number stage gateway : Text) (s : ServiceRoute) : Type 0 where
  pub enabled : s.enabled ≡ true
  pub has_number : In number s.entry_numbers
  pub stage_ok : (s.match_rule.ingress_stages ≡ []) ⊎ In stage s.match_rule.ingress_stages
  pub gateway_ok : (s.match_rule.source_gateways ≡ []) ⊎ In gateway s.match_rule.source_gateways

is_empty_iff {ℓ} : {A : Type ℓ} (xs : List A) → (is_empty xs ≡ true) ↔ (xs ≡ [])
is_empty_iff [] = ground arith
is_empty_iff (x ∷ xs) = ground arith

accepts_iff :
    (number stage gateway : Text) (s : ServiceRoute)
    → (accepts number stage gateway s ≡ true) ↔ Takes number stage gateway s
unfolding accepts
accepts_iff number stage gateway s = ground (
  arith,
  contains_iff s.entry_numbers number,
  contains_iff s.match_rule.ingress_stages stage,
  contains_iff s.match_rule.source_gateways gateway,
  is_empty_iff s.match_rule.ingress_stages,
  is_empty_iff s.match_rule.source_gateways,
)

-- None of the services takes the call.
abbrev pub NoneTakes : Text → Text → Text → List ServiceRoute → Type 0
NoneTakes number stage gateway [] = Unit {0}
NoneTakes number stage gateway (s ∷ ss) =
    (¬ Takes number stage gateway s) × NoneTakes number stage gateway ss

-- The outcomes of a resolution.
pub data Outcome (number stage gateway : Text) (e : RoutingEngine) (r : ResolvedRoute)
    : Type 0 where
  found :
      (before after : List ServiceRoute) (s : ServiceRoute)
      → e.services ≡ before ++ s ∷ after
      → NoneTakes number stage gateway before
      → Takes number stage gateway s
      → r.matched ≡ true
      → r.service_name ≡ s.name
      → r.entry_number ≡ number
      → r.capacity ≡ s.capacity
      → r.routing_config_version ≡ e.version
      → Outcome number stage gateway e r
  missing :
      NoneTakes number stage gateway e.services
      → r.matched ≡ false
      → r.service_name ≡ []
      → r.routing_config_version ≡ e.version
      → Outcome number stage gateway e r

-- A service put in front that does not take the call changes nothing.
skip :
    (number stage gateway : Text) (e : RoutingEngine) (s : ServiceRoute) (ss : List ServiceRoute)
    {r : ResolvedRoute}
    → ¬ Takes number stage gateway s
    → e.services ≡ s ∷ ss
    → Outcome number stage gateway (record e { services = ss }) r
    → Outcome number stage gateway e r
skip number stage gateway e s ss no_take eq (found before after t split none takes m n k c v) =
    found (s ∷ before) after t (eq ∙ ap (◌∷◌ s) split) (no_take, none) takes m n k c v
skip number stage gateway e s ss no_take eq (missing none m n v) =
    missing (rw eq (no_take, none)) m n v

among :
    (number stage gateway : Text) (e : RoutingEngine) (ss : List ServiceRoute)
    → e.services ≡ ss
    → Outcome number stage gateway e (resolve_among e.version number stage gateway ss)
unfolding resolve_among
among number stage gateway e [] eq = missing (rw eq tt) refl refl refl
among number stage gateway e (s ∷ ss) eq = elim (Bool-cases (accepts number stage gateway s)) [
  | inl yes_s ↦
      rw yes_s (
        found [] ss s eq tt ((accepts_iff number stage gateway s).0 yes_s) refl refl refl refl refl)
  | inr no_s ↦ rw no_s (
      skip number stage gateway e s ss (λ t. cc ((accepts_iff number stage gateway s).1 t)) eq
        (among number stage gateway (record e { services = ss }) ss refl))
]

-- resolveRoute returns the first service of the configuration that takes the call, with its
-- capacity, and an unmatched route exactly when no service takes it.
pub resolve_route-Outcome :
    (number stage gateway : Text) (e : RoutingEngine)
    → Outcome number stage gateway e (resolve_route number stage gateway e)
unfolding resolve_route
resolve_route-Outcome number stage gateway e = among number stage gateway e e.services refl

-- The service with another priority.
abbrev pub reprioritised : (ServiceRoute → ℤ) → ServiceRoute → ServiceRoute
reprioritised f s = record s { priority = f s }

among_priority :
    (f : ServiceRoute → ℤ) (version : ℤ) (number stage gateway : Text) (ss : List ServiceRoute)
    → resolve_among version number stage gateway (map (reprioritised f) ss)
      ≡ resolve_among version number stage gateway ss
unfolding resolve_among accepts
among_priority f version number stage gateway [] = refl
among_priority f version number stage gateway (s ∷ ss) =
    rw (among_priority f version number stage gateway ss)

-- The priorities of the configuration have no part in routing: whatever they are, the same route
-- results.
pub resolve_route_priority :
    (f : ServiceRoute → ℤ) (number stage gateway : Text) (e : RoutingEngine)
    → resolve_route number stage gateway (record e { services = map (reprioritised f) e.services })
      ≡ resolve_route number stage gateway e
unfolding resolve_route
resolve_route_priority f number stage gateway e =
    among_priority f e.version number stage gateway e.services
