-- ===== src/CapacityManager/Keys.antt =====
-- The Redis keys of different services, and of slots and leases, do not meet.
use vbgw_pjsip_v.Common.{◌≡◌, ◌≢◌, ap, Text, arith, drop}
use vbgw_pjsip_v.CapacityManager.{slots_key, lease_key}

pub slots_key-injective : (a b : Text) → slots_key a ≡ slots_key b → a ≡ b
unfolding slots_key lease_key
slots_key-injective a b h = ap (drop 11) h

pub lease_key-injective : (a b : Text) → lease_key a ≡ lease_key b → a ≡ b
unfolding slots_key lease_key
lease_key-injective a b h = ap (drop 11) h

pub lease-ne-slots : (a b : Text) → lease_key a ≢ slots_key b
unfolding slots_key lease_key
lease-ne-slots a b h = ground arith
