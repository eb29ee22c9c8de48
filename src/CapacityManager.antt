-- ===== src/CapacityManager.antt =====
-- src/engine/CapacityManager.h and CapacityManager.cpp: slots of a service, shared by several gateway
-- nodes through Redis. The clock (`now`), the generated UUID (`slot_id`) and the faults of the
-- connection are arguments.
pub mod Keys
pub mod Lease
pub mod Limits
pub mod History
mod Tests
use vbgw_pjsip_v.Common.{
  ℕ, ◌+◌, Text, codes, is_empty, Option, none, some, List, [], ◌++◌, Bool, true, false, not, ◌&&◌,
  ◌||◌, leb, if◌then◌else◌,
}
use vbgw_pjsip_v.Common.Int.{ℤ, pos, pos_part, ltb_ℤ, to_int32}
use vbgw_pjsip_v.Redis.{Redis}

pub record SlotLease : Type 0 where
  pub success : Bool
  pub slot_id : Text

-- `kLeaseTtlSeconds`
abbrev pub lease_ttl_seconds : ℕ
lease_ttl_seconds = 30

unfoldable pub slots_key : Text → Text
slots_key service_name = codes "vbgw:slots:" ++ service_name

unfoldable pub lease_key : Text → Text
lease_key slot_id = codes "vbgw:lease:" ++ slot_id

-- How a command ends for the gateway: with its reply, or by an exception before or after the server
-- has run it.
pub data Reply : Type 0 where
  answered lost_before lost_after : Reply

-- How many commands of a pipeline of two the server has run. Exceptions are caught and dropped.
pub data Pipeline : Type 0 where
  ran_none ran_first ran_both : Pipeline

abbrev pub refused : SlotLease
refused = record { success = false; slot_id = [] }

-- `max_cap > 0 and count >= max_cap`
abbrev pub is_full : ℤ → ℕ → Bool
is_full max_cap count = ltb_ℤ (pos 0) max_cap && leb (pos_part max_cap) count

module _ (r : Redis) where
  open r use {Store, zremrangebyscore, zcard, zadd, zrem, setex, expire, del, get}

  -- LEASE_LUA, which the server runs as one step.
  unfoldable pub lease_script : Text → Text → Text → ℤ → ℕ → ℕ → Text → Store → Bool × Store
  lease_script key1 key2 slot_id max_cap now_sec ttl_sec service_name s =
      let expires_at = now_sec + ttl_sec in
      let purged = zremrangebyscore key1 now_sec s in
      let count = zcard key1 purged in
      if is_full max_cap count
      then (false, purged)
      else (true, setex key2 ttl_sec service_name (zadd key1 expires_at slot_id purged))

  -- The test of `result`, or the handler of the exception.
  lease_reply : Reply → Text → Bool × Store → Store → SlotLease × Store
  lease_reply answered slot_id (won, after) before =
      (if won then record { success = true; slot_id = slot_id } else refused, after)
  lease_reply lost_before slot_id ran before = (refused, before)
  lease_reply lost_after slot_id (won, after) before = (refused, after)

  -- `leaseSlot`; `connected` says whether `redis_` is set.
  unfoldable pub lease_slot : Bool → Reply → ℕ → Text → Text → ℤ → Store → SlotLease × Store
  unfolding lease_reply
  lease_slot connected reply now slot_id service_name max_concurrent s =
      if not connected
      then (refused, s)
      else lease_reply reply slot_id
          (lease_script (slots_key service_name) (lease_key slot_id) slot_id max_concurrent now
            lease_ttl_seconds service_name s)
          s

  release_pipeline : Pipeline → Text → Text → Store → Store
  release_pipeline ran_none service_name slot_id s = s
  release_pipeline ran_first service_name slot_id s = zrem (slots_key service_name) slot_id s
  release_pipeline ran_both service_name slot_id s =
      del (lease_key slot_id) (zrem (slots_key service_name) slot_id s)

  unfoldable pub release_slot : Bool → Pipeline → Text → Text → Store → Store
  unfolding release_pipeline
  release_slot connected ran service_name slot_id s =
      if not connected || is_empty service_name || is_empty slot_id
      then s
      else release_pipeline ran service_name slot_id s

  refresh_pipeline : Pipeline → ℕ → Text → Text → Store → Store
  refresh_pipeline ran_none now service_name slot_id s = s
  refresh_pipeline ran_first now service_name slot_id s =
      expire (lease_key slot_id) lease_ttl_seconds s
  refresh_pipeline ran_both now service_name slot_id s =
      zadd (slots_key service_name) (now + lease_ttl_seconds) slot_id
        (expire (lease_key slot_id) lease_ttl_seconds s)

  -- What follows the reply to GET; `none` is a missing key, or an exception.
  refresh_found : Option Text → Pipeline → ℕ → Text → Store → Store
  refresh_found none ran now slot_id s = s
  refresh_found (some service_name) ran now slot_id s =
      refresh_pipeline ran now service_name slot_id s

  -- One step, although other commands can come between its GET and its pipeline.
  unfoldable pub refresh_lease : Bool → Bool → Pipeline → ℕ → Text → Store → Store
  unfolding refresh_found refresh_pipeline
  refresh_lease connected get_fails ran now slot_id s =
      if not connected || is_empty slot_id
      then s
      else refresh_found (if get_fails then none else get (lease_key slot_id) s) ran now slot_id s

  count_reply : Reply → Bool → Text → ℕ → Store → ℤ × Store
  count_reply lost_before count_fails key now s = (pos 0, s)
  count_reply lost_after count_fails key now s = (pos 0, zremrangebyscore key now s)
  count_reply answered count_fails key now s =
      let purged = zremrangebyscore key now s in
      (if count_fails then pos 0 else to_int32 (zcard key purged), purged)

  unfoldable pub get_active_count : Bool → Reply → Bool → ℕ → Text → Store → ℤ × Store
  unfolding count_reply
  get_active_count connected reply count_fails now service_name s =
      if not connected
      then (pos 0, s)
      else count_reply reply count_fails (slots_key service_name) now s
