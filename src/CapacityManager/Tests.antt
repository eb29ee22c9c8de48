-- ===== src/CapacityManager/Tests.antt =====
-- Runs of the capacity manager over a Redis in memory.
use vbgw_pjsip_v.Common.{
  suc, ◌+◌, ◌≡◌, refl, Text, text_eq, codes, List, [], ◌∷◌, none, some, true, false, arith,
}
use vbgw_pjsip_v.Common.Int.{pos, ◌<ℤ◌, ◌≤ℤ◌}
use vbgw_pjsip_v.Redis.Memory.{Store, memory, memory-Laws, empty, score, later_than, add, value_at}
use vbgw_pjsip_v.CapacityManager.{
  lease_ttl_seconds, slots_key, lease_key, answered, ran_both, lease_slot, refresh_lease,
  lease_script,
}
use vbgw_pjsip_v.CapacityManager.Lease.{lease_slot-granted, refresh_overruns}
use vbgw_pjsip_v.CapacityManager.History.{Op, leases, releases, run, run_within}

abbrev sales : Text
sales = codes "sales"

abbrev slot : Text
slot = codes "u1"

open memory use {zcard, zscore, get, zremrangebyscore}

-- The first node gets the only slot.
granted : (lease_slot memory true answered 100 slot sales (pos 1) empty).0.success ≡ true
unfolding lease_slot lease_script later_than add text_eq slots_key
granted = refl

lease_slot-granted_example :
    let (lease, s') = lease_slot memory true answered 100 slot sales (pos 1) empty in
    (lease.slot_id ≡ slot)
    × (zscore (slots_key sales) slot s' ≡ some (100 + lease_ttl_seconds))
    × (get (lease_key slot) s' ≡ some sales)
    × (pos 0 <ℤ pos 1 → pos (zcard (slots_key sales) s') ≤ℤ pos 1)
lease_slot-granted_example =
    lease_slot-granted memory memory-Laws 100 slot sales (pos 1) empty granted

abbrev full : Store
full = (lease_slot memory true answered 100 slot sales (pos 1) empty).1

abbrev history : List Op
history =
    leases true answered 100 slot sales (pos 1)
    ∷ leases true answered 101 (codes "u2") sales (pos 1)
    ∷ releases true ran_both sales slot
    ∷ []

run_within_example : pos (zcard (slots_key sales) (run memory empty history)) ≤ℤ pos 1
run_within_example =
    run_within memory memory-Laws sales (pos 1) history empty (omega arith)
      (λ e. refl, (λ e. refl, (tt, tt))) (omega arith)

-- The lease key is still there, the slot has been purged, and another slot has taken the place.
abbrev purged : Store
purged = record { zset = λ k. (codes "u2", 131) ∷ []; value = λ k. some (sales, 140); clock = 130 }

purged_score : zscore (slots_key sales) slot purged ≡ none
unfolding score text_eq
purged_score = refl

purged_value : get (lease_key slot) purged ≡ some sales
unfolding value_at
purged_value = refl

refresh_overruns_example :
    zcard (slots_key sales) (refresh_lease memory true false ran_both 130 slot purged)
    ≡ suc (zcard (slots_key sales) purged)
refresh_overruns_example =
    refresh_overruns memory memory-Laws 130 slot sales purged (λ e. ground (arith, e)) purged_value
      purged_score
