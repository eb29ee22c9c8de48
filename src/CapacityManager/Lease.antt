-- ===== src/CapacityManager/Lease.antt =====
-- What one call of the capacity manager does, over any Redis that has the documented behaviour.
use vbgw_pjsip_v.Common.{
  ℕ, suc, ◌+◌, ◌≤◌, ◌<◌, ◌≡◌, ◌≢◌, ◌↔◌, inl, inr, refl, ap, ◌∙◌, Text, [], ◌∷◌, none, some, true,
  false, arith, Bool-cases, Option-cases,
}
use vbgw_pjsip_v.Common.Int.{ℤ, pos, ◌<ℤ◌, ◌≤ℤ◌}
use vbgw_pjsip_v.Redis.{Redis, Laws}
use vbgw_pjsip_v.CapacityManager.{
  lease_ttl_seconds, slots_key, lease_key, answered, ran_both, is_full, lease_script, lease_slot,
  refresh_pipeline, refresh_found, refresh_lease, release_slot, release_pipeline,
}
use vbgw_pjsip_v.CapacityManager.Keys.{lease-ne-slots}

module _ (r : Redis) (laws : Laws r) where
  open r use {Store, zremrangebyscore, zcard, zadd, zrem, zscore, setex, expire, get}

  zcard-zadd-le : (k m : Text) (e : ℕ) (s : Store) → zcard k (zadd k e m s) ≤ suc (zcard k s)
  zcard-zadd-le k m e s = elim (Option-cases (zscore k m s)) [
    | inl new ↦ omega (arith, laws.zcard-zadd_new k m e s new)
    | inr (d, old) ↦ omega (arith, laws.zcard-zadd_old k m e d s old)
  ]

  -- What the script leaves when it grants the lease.
  script_granted :
      (k1 k2 slot_id service_name : Text) (max : ℤ) (now ttl : ℕ) (s : Store)
      → k2 ≢ k1
      → 0 < ttl
      → let (won, s') = lease_script r k1 k2 slot_id max now ttl service_name s in
        won ≡ true
        → (zscore k1 slot_id s' ≡ some (now + ttl))
          × (get k2 s' ≡ some service_name)
          × (pos 0 <ℤ max → pos (zcard k1 s') ≤ℤ max)
  unfolding lease_script
  script_granted k1 k2 slot_id service_name max now ttl s ne p h =
      elim (Bool-cases (is_full max (zcard k1 (zremrangebyscore k1 now s)))) [
        | inl full ↦ absurd (not_full full (rw full at h))
        | inr room ↦ rw room (
          laws.zscore-setex k2 k1 slot_id service_name ttl added ne
              ∙ laws.zscore-zadd k1 slot_id (now + ttl) purged,
          laws.get-setex k2 service_name ttl added p,
          λ limited. ground (
            arith,
            laws.zcard-setex k2 k1 service_name ttl added ne,
            zcard-zadd-le k1 slot_id (now + ttl) purged,
          ),
        )
      ]
    where
      purged : Store
      purged = zremrangebyscore k1 now s

      added : Store
      added = zadd k1 (now + ttl) slot_id purged

      not_full : is_full max (zcard k1 purged) ≡ true → false ≡ true → ⊥
      not_full f e = cc

  -- A lease that is granted is held until now + 30, its key names the service, and where the
  -- service has a limit the number of slots is within it.
  pub lease_slot-granted :
      (now : ℕ) (slot_id service_name : Text) (max : ℤ) (s : Store)
      → let (lease, s') = lease_slot r true answered now slot_id service_name max s in
        lease.success ≡ true
        → (lease.slot_id ≡ slot_id)
          × (zscore (slots_key service_name) slot_id s' ≡ some (now + lease_ttl_seconds))
          × (get (lease_key slot_id) s' ≡ some service_name)
          × (pos 0 <ℤ max → pos (zcard (slots_key service_name) s') ≤ℤ max)
  unfolding lease_slot
  lease_slot-granted now slot_id service_name max s h = ground (
    arith,
    script_granted (slots_key service_name) (lease_key slot_id) slot_id service_name max now
        lease_ttl_seconds s (lease-ne-slots slot_id service_name),
  )

  -- With an answer from Redis the node is refused exactly when the service has a limit and as many
  -- slots are live; it then gets no slot id.
  pub lease_slot-refused :
      (now : ℕ) (slot_id service_name : Text) (max : ℤ) (s : Store)
      → let (lease, s') = lease_slot r true answered now slot_id service_name max s in
        ((lease.success ≡ false) ↔ (
          (pos 0 <ℤ max)
          × (max
              ≤ℤ pos (
                  zcard
                    (slots_key service_name)
                    (zremrangebyscore (slots_key service_name) now s)))))
        × (lease.success ≡ false → lease.slot_id ≡ [])
  unfolding lease_slot lease_script
  lease_slot-refused now slot_id service_name max s = ground arith

  -- A heartbeat whose lease key still lives puts a purged slot back without a look at the limit:
  -- the count grows by one.
  pub refresh_overruns :
      (now : ℕ) (slot_id service_name : Text) (s : Store)
      → slot_id ≢ []
      → get (lease_key slot_id) s ≡ some service_name
      → zscore (slots_key service_name) slot_id s ≡ none
      → zcard (slots_key service_name) (refresh_lease r true false ran_both now slot_id s)
        ≡ suc (zcard (slots_key service_name) s)
  unfolding refresh_lease refresh_found refresh_pipeline
  refresh_overruns now [] service_name s ne h gone = absurd (ne refl)
  refresh_overruns now (b ∷ id) service_name s ne h gone =
      let k = slots_key service_name in
      let expired = expire (lease_key (b ∷ id)) lease_ttl_seconds s in
      let apart = lease-ne-slots (b ∷ id) service_name in
      rw h (
        laws.zcard-zadd_new k (b ∷ id) (now + lease_ttl_seconds) expired
          (laws.zscore-expire (lease_key (b ∷ id)) k (b ∷ id) lease_ttl_seconds s apart ∙ gone)
        ∙ ap suc (laws.zcard-expire (lease_key (b ∷ id)) k lease_ttl_seconds s apart))

  -- A release that runs through leaves neither the slot nor its lease.
  pub release_slot_lem :
      (service_name slot_id : Text) (s : Store)
      → service_name ≢ []
      → slot_id ≢ []
      → (zscore
            (slots_key service_name)
            slot_id
            (release_slot r true ran_both service_name slot_id s)
          ≡ none)
        × (get (lease_key slot_id) (release_slot r true ran_both service_name slot_id s) ≡ none)
  unfolding release_slot release_pipeline
  release_slot_lem [] slot_id s ne ne' = absurd (ne refl)
  release_slot_lem (c ∷ name) [] s ne ne' = absurd (ne' refl)
  release_slot_lem (c ∷ name) (d ∷ id) s ne ne' =
      let removed = zrem (slots_key (c ∷ name)) (d ∷ id) s in
      (
        laws.zscore-del (lease_key (d ∷ id)) (slots_key (c ∷ name)) (d ∷ id) removed
              (lease-ne-slots (d ∷ id) (c ∷ name))
            ∙ laws.zscore-zrem (slots_key (c ∷ name)) (d ∷ id) s,
        laws.get-del (lease_key (d ∷ id)) removed,
      )
