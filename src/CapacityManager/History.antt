-- ===== src/CapacityManager/History.antt =====
-- Histories of calls by any number of nodes: the limit of a service holds throughout.
use vbgw_pjsip_v.Common.{ℕ, ◌≡◌, ◌≢◌, Text, List, [], ◌∷◌, none, some, Bool}
use vbgw_pjsip_v.Common.Int.{ℤ, pos, ◌<ℤ◌, ◌≤ℤ◌}
use vbgw_pjsip_v.Redis.{Redis, Laws}
use vbgw_pjsip_v.CapacityManager.{
  slots_key, lease_key, Reply, Pipeline, lease_slot, release_slot, refresh_lease, get_active_count,
}
use vbgw_pjsip_v.CapacityManager.Limits.{
  lease_within, release_within, refresh_within, counts_within,
}

-- A call, with the node's clock and whatever goes wrong.
pub data Op : Type 0 where
  leases : Bool → Reply → ℕ → Text → Text → ℤ → Op
  releases : Bool → Pipeline → Text → Text → Op
  refreshes : Bool → Bool → Pipeline → ℕ → Text → Op
  counts : Bool → Reply → Bool → ℕ → Text → Op

module _ (r : Redis) where
  open r use {Store, zcard, zscore, get}

  unfoldable pub apply : Op → Store → Store
  apply (leases c reply now id service limit) s = (lease_slot r c reply now id service limit s).1
  apply (releases c ran service id) s = release_slot r c ran service id s
  apply (refreshes c fails ran now id) s = refresh_lease r c fails ran now id s
  apply (counts c reply fails now service) s = (get_active_count r c reply fails now service s).1

  pub run : Store → List Op → Store
  run s [] = s
  run s (o ∷ os) = run (apply o s) os

  -- What is asked of a history: the nodes agree on the service's limit, and a heartbeat finds its
  -- slot still in the service's set.
  abbrev pub IsFair : Text → ℤ → Op → Store → Type 0
  IsFair service max (leases c reply now id other limit) s = other ≡ service → limit ≡ max
  IsFair service max (releases c ran other id) s = Unit {0}
  IsFair service max (refreshes c fails ran now id) s =
      get (lease_key id) s ≡ some service → zscore (slots_key service) id s ≢ none
  IsFair service max (counts c reply fails now other) s = Unit {0}

  abbrev pub AllFair : Text → ℤ → Store → List Op → Type 0
  AllFair service max s [] = Unit {0}
  AllFair service max s (o ∷ os) = IsFair service max o s × AllFair service max (apply o s) os

module _ (r : Redis) (laws : Laws r) (service : Text) (max : ℤ) where
  open r use {Store, zcard}

  abbrev WithinLimit : Store → Type 0
  WithinLimit s = pos (zcard (slots_key service) s) ≤ℤ max

  apply_within :
      (o : Op) (s : Store)
      → pos 0 <ℤ max
      → IsFair r service max o s
      → WithinLimit s
      → WithinLimit (apply r o s)
  unfolding apply
  apply_within (leases c reply now id other limit) s p fair w =
      lease_within r laws service max c reply now id other limit s p fair w
  apply_within (releases c ran other id) s p fair w =
      release_within r laws service max c ran other id s w
  apply_within (refreshes c fails ran now id) s p fair w =
      refresh_within r laws service max c fails ran now id s fair w
  apply_within (counts c reply fails now other) s p fair w =
      counts_within r laws service max c reply fails now other s w

  -- No history of leases, releases, heartbeats and counts by any number of nodes, with lost replies
  -- and half-run pipelines, takes a service over its limit, if the nodes agree on a positive limit
  -- and each heartbeat finds its slot still in the set.
  pub run_within :
      (os : List Op) (s : Store)
      → pos 0 <ℤ max
      → AllFair r service max s os
      → pos (zcard (slots_key service) s) ≤ℤ max
      → pos (zcard (slots_key service) (run r s os)) ≤ℤ max
  unfolding run
  run_within [] s p fair w = w
  run_within (o ∷ os) s p fair w =
      run_within os (apply r o s) p fair.1 (apply_within o s p fair.0 w)
