-- ===== src/RoutingEngine/Config.antt =====
-- `RoutingEngine::loadConfig`. The YAML library is a parameter: what it reads from a node, and where
-- it throws.
use vbgw_pjsip_v.Common.{
  ◌≡◌, ◌⊎◌, refl, Text, codes, List, [], ◌∷◌, Option, none, some, Bool, true, false, arith,
}
use vbgw_pjsip_v.Common.Int.{ℤ, pos}
use vbgw_pjsip_v.RoutingEngine.{
  RoutingMatchRule, ServiceOverflow, ServiceCapacity, ServiceRoute, RoutingEngine, default_overflow,
  default_capacity,
}

-- yaml-cpp. The outer option of `field` is `none` where `node[key]` throws, the inner one where the
-- key is not defined; the conversions are `none` where `as<T>()` throws.
pub record Yaml : Type 1 where
  pub Node : Type 0
  pub field : Text → Node → Option (Option Node)
  pub as_text : Node → Option Text
  pub as_int : Node → Option ℤ
  pub as_bool : Node → Option Bool
  pub as_texts : Node → Option (List Text)
  -- what the range-`for` over a node visits
  pub items : Node → Option (List Node)

infixl 5 ◌>>=◌
abbrev ◌>>=◌ {ℓ κ} : {A : Type ℓ} {B : Type κ} → Option A → (A → Option B) → Option B
none >>= f = none
some a >>= f = f a

abbrev or_default {ℓ} : {A : Type ℓ} → Option A → A → A
or_default none d = d
or_default (some a) d = a

module _ (y : Yaml) where
  open y use {Node, field, as_text, as_int, as_bool, as_texts, items}

  -- `as` on a key that is not defined throws.
  unfoldable pub required {ℓ} : {A : Type ℓ} → (Node → Option A) → Text → Node → Option A
  required convert key n = field key n >>= λ found. found >>= convert

  convert_found {ℓ} : {A : Type ℓ} → (Node → Option A) → Option Node → Option (Option A)
  convert_found convert none = some none
  convert_found convert (some m) = convert m >>= λ a. some (some a)

  -- `if (n[key]) x = n[key].as<T>();`: `some none` leaves `x` as it was.
  unfoldable pub optional {ℓ} : {A : Type ℓ} → (Node → Option A) → Text → Node → Option (Option A)
  unfolding convert_found
  optional convert key n = field key n >>= convert_found convert

  unfoldable pub parse_match : Node → Option RoutingMatchRule
  parse_match n = do
    stages ← optional as_texts (codes "ingress_stages") n
    gateways ← optional as_texts (codes "source_gateways") n
    some
        (record { ingress_stages = or_default stages []; source_gateways = or_default gateways [] })

  -- `base` is the overflow rule so far.
  unfoldable pub parse_overflow : ServiceOverflow → Node → Option ServiceOverflow
  parse_overflow base n = do
    policy ← optional as_text (codes "policy") n
    wait ← optional as_int (codes "max_wait_seconds") n
    announcement ← optional as_text (codes "announcement") n
    on_timeout ← optional as_text (codes "on_timeout") n
    target ← optional as_text (codes "target") n
    announce ← optional as_bool (codes "announce_before_transfer") n
    some (record {
      policy = or_default policy base.policy;
      max_wait_seconds = or_default wait base.max_wait_seconds;
      announcement = or_default announcement base.announcement;
      on_timeout = or_default on_timeout base.on_timeout;
      target = or_default target base.target;
      announce_before_transfer = or_default announce base.announce_before_transfer;
    })

  unfoldable pub parse_capacity : Node → Option ServiceCapacity
  parse_capacity n = do
    backend ← optional as_text (codes "backend") n
    max ← optional as_int (codes "max_concurrent") n
    allocator ← optional as_text (codes "allocator") n
    policy ← optional as_text (codes "overflow_policy") n
    target ← optional as_text (codes "transfer_target") n
    extensions ← optional as_texts (codes "extensions") n
    registered ← optional as_bool (codes "require_registered") n
    let base = record default_overflow {
      policy = or_default policy default_overflow.policy;
      target = or_default target default_overflow.target;
    }
    overflow ← optional (parse_overflow base) (codes "overflow") n
    some (record {
      backend = or_default backend default_capacity.backend;
      max_concurrent = or_default max default_capacity.max_concurrent;
      allocator = or_default allocator default_capacity.allocator;
      overflow_policy = or_default policy default_capacity.overflow_policy;
      transfer_target = or_default target default_capacity.transfer_target;
      overflow = or_default overflow base;
      extensions = or_default extensions [];
      require_registered = or_default registered false;
    })

  -- One round of the loop over `config["services"]`.
  unfoldable pub parse_service : Node → Option ServiceRoute
  parse_service n = do
    name ← required as_text (codes "name") n
    enabled ← required as_bool (codes "enabled") n
    route_type ← required as_text (codes "route_type") n
    priority ← optional as_int (codes "priority") n
    numbers ← optional as_texts (codes "entry_numbers") n
    rule ← optional parse_match (codes "match") n
    capacity ← optional parse_capacity (codes "capacity") n
    some (record {
      name = name;
      enabled = enabled;
      route_type = route_type;
      priority = or_default priority (pos 0);
      entry_numbers = or_default numbers [];
      match_rule = or_default rule (record { ingress_stages = []; source_gateways = [] });
      capacity = or_default capacity default_capacity;
    })

  unfoldable pub parse_all : List Node → Option (List ServiceRoute)
  parse_all [] = some []
  parse_all (n ∷ ns) = do s ← parse_service n; ss ← parse_all ns; some (s ∷ ss)

  unfoldable pub parse_services : Node → Option (List ServiceRoute)
  unfolding parse_all
  parse_services n = items n >>= parse_all

  -- `services_ = std::move(new_services)` comes last.
  store_services : Option (Option (List ServiceRoute)) → RoutingEngine → Bool × RoutingEngine
  store_services none e = (false, e)
  store_services (some found) e = (true, record e { services = or_default found [] })

  store_default : Option (Option (Option Text)) → Node → RoutingEngine → Bool × RoutingEngine
  store_default none config e = (false, e)
  store_default (some (some (some entry))) config e =
      store_services (optional parse_services (codes "services") config)
        (record e { on_unknown_entry = entry })
  store_default (some _) config e =
      store_services (optional parse_services (codes "services") config) e

  store_version : Option (Option ℤ) → Node → RoutingEngine → Bool × RoutingEngine
  store_version none config e = (false, e)
  store_version (some found) config e =
      store_default
        (optional (optional as_text (codes "on_unknown_entry")) (codes "defaults") config) config
        (record e { version = or_default found e.version })

  -- `loadConfig`; `none` where `LoadFile` throws. An exception leaves what was assigned before it.
  unfoldable pub load_config : Option Node → RoutingEngine → Bool × RoutingEngine
  unfolding store_version store_default store_services
  load_config none e = (false, e)
  load_config (some config) e = store_version (optional as_int (codes "version") config) config e

  -- A load that fails leaves the services as they were; one that succeeds has parsed every entry.
  pub load_config-services :
      (file : Option Node) (e : RoutingEngine)
      → let (ok, e') = load_config file e in
        (ok ≡ false → e'.services ≡ e.services)
        × (ok ≡ true
            → (config : Node) × (file ≡ some config)
              × ((optional parse_services (codes "services") config ≡ some none)
                    × (e'.services ≡ [])
                  ⊎ (optional parse_services (codes "services") config ≡ some (some e'.services))))
  unfolding load_config
  load_config-services none e = (λ h. refl, λ h. cc)
  load_config-services (some config) e = (λ h. ground arith, λ h. (config, refl, ground arith))

  -- Without an overflow block the overflow rule is that of the flat keys.
  pub parse_capacity-flat :
      (n : Node) {c : ServiceCapacity}
      → parse_capacity n ≡ some c
      → field (codes "overflow") n ≡ some none
      → (c.overflow.policy ≡ c.overflow_policy) × (c.overflow.target ≡ c.transfer_target)
  unfolding parse_capacity optional
  parse_capacity-flat n {c} h absent = ground arith
