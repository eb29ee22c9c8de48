-- ===== src/RoutingEngine.antt =====
-- src/engine/RoutingEngine.h and RoutingEngine.cpp: which service a called number belongs to.
pub mod Config
pub mod Resolve
mod Tests
use vbgw_pjsip_v.Common.{
  Text, codes, text_eq, is_empty, List, [], ◌∷◌, any, Bool, true, false, not, ◌&&◌, ◌||◌,
  if◌then◌else◌,
}
use vbgw_pjsip_v.Common.Int.{ℤ, pos}

pub record RoutingMatchRule : Type 0 where
  pub ingress_stages : List Text
  pub source_gateways : List Text

pub record ServiceOverflow : Type 0 where
  pub policy : Text
  pub max_wait_seconds : ℤ
  pub announcement : Text
  pub on_timeout : Text
  pub target : Text
  pub announce_before_transfer : Bool

pub record ServiceCapacity : Type 0 where
  pub backend : Text
  pub max_concurrent : ℤ
  pub allocator : Text
  pub overflow_policy : Text
  pub transfer_target : Text
  pub overflow : ServiceOverflow
  pub extensions : List Text
  pub require_registered : Bool

pub record ServiceRoute : Type 0 where
  pub name : Text
  pub enabled : Bool
  pub route_type : Text
  pub priority : ℤ
  pub entry_numbers : List Text
  pub match_rule : RoutingMatchRule
  pub capacity : ServiceCapacity

pub record ResolvedRoute : Type 0 where
  pub matched : Bool
  pub service_name : Text
  pub route_type : Text
  pub entry_number : Text
  pub routing_config_version : ℤ
  pub capacity : ServiceCapacity

pub record RoutingEngine : Type 0 where
  pub version : ℤ
  pub on_unknown_entry : Text
  pub services : List ServiceRoute

-- The members' default initialisers.
abbrev pub default_overflow : ServiceOverflow
default_overflow = record {
  policy = codes "busy";
  max_wait_seconds = pos 0;
  announcement = [];
  on_timeout = codes "busy";
  target = [];
  announce_before_transfer = false;
}

abbrev pub default_capacity : ServiceCapacity
default_capacity = record {
  backend = codes "logical";
  max_concurrent = pos 0;
  allocator = codes "round_robin";
  overflow_policy = codes "busy";
  transfer_target = [];
  overflow = default_overflow;
  extensions = [];
  require_registered = false;
}

unfoldable pub create : RoutingEngine
create = record { version = pos 0; on_unknown_entry = codes "static_fallback"; services = [] }

-- `std::find(v.begin(), v.end(), s) != v.end()`
unfoldable pub contains : List Text → Text → Bool
contains [] s = false
contains (t ∷ ts) s = if text_eq t s then true else contains ts s

-- The conditions that the loop tests for one service.
unfoldable pub accepts : Text → Text → Text → ServiceRoute → Bool
accepts destination_number ingress_stage source_gateway service =
    let stages = service.match_rule.ingress_stages in
    let gateways = service.match_rule.source_gateways in
    let stage_matched = is_empty stages || contains stages ingress_stage in
    let gateway_matched = is_empty gateways || contains gateways source_gateway in
    if not service.enabled
    then false
    else if not (contains service.entry_numbers destination_number)
    then false
    else stage_matched && gateway_matched

-- The loop over `services_`.
unfoldable pub resolve_among : ℤ → Text → Text → Text → List ServiceRoute → ResolvedRoute
resolve_among version destination_number ingress_stage source_gateway [] = record {
  matched = false;
  service_name = [];
  route_type = [];
  entry_number = [];
  routing_config_version = version;
  capacity = default_capacity;
}
resolve_among version destination_number ingress_stage source_gateway (service ∷ services) =
    if accepts destination_number ingress_stage source_gateway service
    then record {
      matched = true;
      service_name = service.name;
      route_type = service.route_type;
      entry_number = destination_number;
      routing_config_version = version;
      capacity = service.capacity;
    }
    else resolve_among version destination_number ingress_stage source_gateway services

unfoldable pub resolve_route : Text → Text → Text → RoutingEngine → ResolvedRoute
unfolding resolve_among
resolve_route destination_number ingress_stage source_gateway e =
    resolve_among e.version destination_number ingress_stage source_gateway e.services
