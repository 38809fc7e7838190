-- ===== src/Eds.antt =====
-- eds.go: the endpoint discovery service. Messages of the protocol are records of the fields that
-- the code sets; a pointer that may be nil is an option. Go visits a map in an order that it does
-- not fix, and another one at each `range`: `Order` is the order at the `range` that is reached
-- along a path of call numbers.
pub mod Groups
pub mod Partition
pub mod Regions
pub mod Weights
mod Tests
pub mod Options
use example_envoy_xds.Base.{
  ℕ, zero, suc, ◌+◌, ◌%◌, List, [], ◌∷◌, ◌++◌, map, Text, codes, text_eq, Bool, true, false, Option,
  none, some, if◌then◌else◌, ltb, ℤ, pos, Result, ok, u64_mod, apply_all,
}
use example_envoy_xds.Config.{EdsConfig, EdsInstanceConfig, Address, instance_address}
use example_envoy_xds.Decimal.{format_uint}
use example_envoy_xds.Names.{xds_name}
use Options.{EdsOpt, EdsOptFunc, init_eds_opt}

-- its `xdsConfig` is stored and never read, and left out
pub record EndpointDiscoveryService : Type 0 where
  pub opt : EdsOpt
  pub version : ℕ

-- `atomic.AddUint64(&e.version, 1)`
unfoldable pub incre_version : EndpointDiscoveryService → EndpointDiscoveryService
incre_version e = record e { version = (e.version + 1) % u64_mod }

pub record Endpoint : Type 0 where
  pub address : Address
  pub hostname : Text
  pub health_check_port : ℕ

pub record LbEndpoint : Type 0 where
  pub endpoint : Endpoint
  pub health_status : ℤ
  pub load_balancing_weight : Option ℕ

pub record Locality : Type 0 where
  pub region : Text
  pub zone : Text

pub record LocalityLbEndpoints : Type 0 where
  pub locality : Option Locality
  pub lb_endpoints : List LbEndpoint

pub record ClusterLoadAssignment : Type 0 where
  pub cluster_name : Text
  pub endpoints : List LocalityLbEndpoints

unfoldable pub instance_endpoint : EdsInstanceConfig → Endpoint
instance_endpoint i = record {
  address = instance_address i;
  hostname = i.instance_name;
  health_check_port = i.port;
}

unfoldable pub endpoint_with_status : ℤ → EdsInstanceConfig → LbEndpoint
unfolding instance_endpoint
endpoint_with_status status i = record {
  endpoint = instance_endpoint i;
  health_status = status;
  load_balancing_weight = none;
}

unfoldable pub lb_endpoints_with_initial_status : List EdsInstanceConfig → ℤ → List LbEndpoint
lb_endpoints_with_initial_status instances status = map (endpoint_with_status status) instances

unfoldable pub endpoint_with_weight : EdsInstanceConfig → LbEndpoint
unfolding instance_endpoint
endpoint_with_weight i = record {
  endpoint = instance_endpoint i;
  health_status = pos 0;
  load_balancing_weight = some (if ltb i.weight 1 then 1 else i.weight);
}

unfoldable pub lb_endpoints_default : List EdsInstanceConfig → List LbEndpoint
lb_endpoints_default instances = map endpoint_with_weight instances

unfoldable pub lb_endpoints : EdsOpt → List EdsInstanceConfig → List LbEndpoint
lb_endpoints opt instances =
    if opt.set_initial_health_status
    then lb_endpoints_with_initial_status instances opt.health_status
    else lb_endpoints_default instances

-- a Go `map[string][]EDSInstanceConfig`: each key once
abbrev pub InstanceMap : Type 0
InstanceMap = List (Text × List EdsInstanceConfig)

-- `m[key]`
unfoldable pub get : Text → InstanceMap → Option (List EdsInstanceConfig)
get key [] = none
get key ((k, v) ∷ m) = if text_eq k key then some v else get key m

-- `m[key] = value`
unfoldable pub put : Text → List EdsInstanceConfig → InstanceMap → InstanceMap
put key value [] = (key, value) ∷ []
put key value ((k, v) ∷ m) = if text_eq k key then (k, value) ∷ m else (k, v) ∷ put key value m

-- the loop that `instancesByRegion` and `instancesByZone` share, but for the key
unfoldable pub add_instance : Text → EdsInstanceConfig → InstanceMap → InstanceMap
add_instance key ins m = elim (get key m) [
  | none ↦ put key (ins ∷ []) m
  | some exists ↦ put key (exists ++ (ins ∷ [])) m
]

unfoldable pub group :
    (EdsInstanceConfig → Text) → List EdsInstanceConfig → InstanceMap → InstanceMap
group key [] m = m
group key (ins ∷ rest) m = group key rest (add_instance (key ins) ins m)

unfoldable pub instances_by_region : List EdsInstanceConfig → InstanceMap
instances_by_region instances = group (λ i. i.region) instances []

unfoldable pub instances_by_zone : List EdsInstanceConfig → InstanceMap
instances_by_zone instances = group (λ i. i.zone) instances []

-- the order in which `range` visits the map
abbrev pub Order : Type 0
Order = List ℕ → InstanceMap → InstanceMap

module _ (opt : EdsOpt) where
  unfoldable pub lb_locality_endpoint : Text → Text → List EdsInstanceConfig → LocalityLbEndpoints
  lb_locality_endpoint region zone instances = record {
    locality = some (record { region = region; zone = zone });
    lb_endpoints = lb_endpoints opt instances;
  }

  -- `for zone, ins := range …`
  unfoldable pub zone_loop : Text → InstanceMap → List LocalityLbEndpoints
  zone_loop region [] = []
  zone_loop region ((zone, ins) ∷ rest) =
      lb_locality_endpoint region zone ins ∷ zone_loop region rest

  unfoldable pub lb_normal_endpoints : List EdsInstanceConfig → List LocalityLbEndpoints
  lb_normal_endpoints instances =
      (record { locality = none; lb_endpoints = lb_endpoints opt instances }) ∷ []

module _ (order : Order) (opt : EdsOpt) where
  unfoldable pub lb_locality_endpoints_by_region :
      List ℕ → Text → List EdsInstanceConfig → List LocalityLbEndpoints
  lb_locality_endpoints_by_region path region instances =
      zone_loop opt region (order path (instances_by_zone instances))

  -- `for region, ins := range …`, its rounds numbered
  unfoldable pub region_loop : List ℕ → ℕ → InstanceMap → List LocalityLbEndpoints
  region_loop path n [] = []
  region_loop path n ((region, ins) ∷ rest) =
      lb_locality_endpoints_by_region (n ∷ path) region ins ++ region_loop path (suc n) rest

  unfoldable pub lb_locality_endpoints : List ℕ → List EdsInstanceConfig → List LocalityLbEndpoints
  lb_locality_endpoints path instances =
      region_loop path 0 (order path (instances_by_region instances))

  unfoldable pub lb_balancing_endpoints :
      List ℕ → Text → List EdsInstanceConfig → List LocalityLbEndpoints
  lb_balancing_endpoints path balancing_policy instances =
      if text_eq balancing_policy (codes "normal")
      then lb_normal_endpoints opt instances
      else if text_eq balancing_policy (codes "locality")
      then lb_locality_endpoints path instances
      else lb_locality_endpoints path instances

  unfoldable pub cluster_load_assignment :
      List ℕ → Text → Text → List EdsInstanceConfig → ClusterLoadAssignment
  cluster_load_assignment path usage balancing_policy instances = record {
    cluster_name = xds_name (codes "example-xds-eds" ∷ usage ∷ []);
    endpoints = lb_balancing_endpoints path balancing_policy instances;
  }

  -- `for idx, config := range configs`
  unfoldable pub eds_endpoints : List ℕ → ℕ → List EdsConfig → List ClusterLoadAssignment
  eds_endpoints path idx [] = []
  eds_endpoints path idx (config ∷ rest) =
      cluster_load_assignment (idx ∷ path) config.cluster_name config.balancing_policy
        config.instances
      ∷ eds_endpoints path (suc idx) rest

-- `create` always succeeds. The path of its maps begins with the version.
unfoldable pub create :
    {E : Type 0}
    → Order
    → EndpointDiscoveryService
    → List EdsConfig
    → EndpointDiscoveryService × Result E (Text × List ClusterLoadAssignment)
create order e configs =
    let e' = incre_version e in
    (e', ok (format_uint e'.version, eds_endpoints order e'.opt (e'.version ∷ []) 0 configs))

unfoldable pub new_endpoint_discovery_service : List EdsOptFunc → EndpointDiscoveryService
new_endpoint_discovery_service funcs = record {
  opt = init_eds_opt (
      apply_all funcs (record {
        load_balancing_weight = 0;
        health_status = pos 0;
        set_initial_health_status = false;
      }));
  version = 0;
}
