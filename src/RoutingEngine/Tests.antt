-- ===== src/RoutingEngine/Tests.antt =====
-- Runs of the routing engine on a small configuration.
use vbgw_pjsip_v.Common.{
  ◌≡◌, refl, Text, text_eq, codes, [], ◌∷◌, Option, none, some, true, if◌then◌else◌,
}
use vbgw_pjsip_v.Common.Int.{pos}
use vbgw_pjsip_v.RoutingEngine.{
  RoutingEngine, ServiceRoute, ServiceCapacity, default_capacity, resolve_route,
}
use vbgw_pjsip_v.RoutingEngine.Resolve.{Outcome, resolve_route-Outcome}
use vbgw_pjsip_v.RoutingEngine.Config.{Yaml, optional, parse_capacity}

abbrev sales : ServiceRoute
sales = record {
  name = codes "sales";
  enabled = true;
  route_type = codes "voicebot";
  priority = pos 10;
  entry_numbers = codes "1001" ∷ [];
  match_rule = record { ingress_stages = []; source_gateways = [] };
  capacity = default_capacity;
}

abbrev engine : RoutingEngine
engine = record {
  version = pos 1;
  on_unknown_entry = codes "static_fallback";
  services = sales ∷ [];
}

resolve_route-Outcome_example :
    Outcome
      (codes "1001")
      (codes "direct")
      (codes "pbx")
      engine
      (resolve_route (codes "1001") (codes "direct") (codes "pbx") engine)
resolve_route-Outcome_example =
    resolve_route-Outcome (codes "1001") (codes "direct") (codes "pbx") engine

-- Scalars, and a mapping of one key.
data Value : Type 0 where
  word : Text → Value
  keyed : Text → Value → Value

field_of : Text → Value → Option (Option Value)
field_of key (word w) = none
field_of key (keyed k v) = some (if text_eq k key then some v else none)

word_of : Value → Option Text
word_of (word w) = some w
word_of (keyed k v) = none

abbrev words : Yaml
words = record {
  Node = Value;
  field = field_of;
  as_text = word_of;
  as_int = λ v. none;
  as_bool = λ v. none;
  as_texts = λ v. none;
  items = λ v. some [];
}

-- The flat key alone.
abbrev flat : Value
flat = keyed (codes "overflow_policy") (word (codes "queue"))

abbrev queueing : ServiceCapacity
queueing = record default_capacity {
  overflow_policy = codes "queue";
  overflow = record default_capacity.overflow { policy = codes "queue" };
}

parse_flat : parse_capacity words flat ≡ some queueing
unfolding parse_capacity optional field_of text_eq word_of
parse_flat = refl

flat_absent : field_of (codes "overflow") flat ≡ some none
unfolding field_of text_eq
flat_absent = refl
