-- ===== src/CapacityManager/Limits.antt =====
-- What each operation does to the number of slots of a service.
use vbgw_pjsip_v.Common.{
  ℕ, suc, ◌+◌, ◌≤◌, ◌≡◌, ◌≢◌, inl, inr, refl, ap, ◌∙◌, Text, Text-cases, [], ◌∷◌, Option, none,
  some, Bool, true, false, arith, Option-cases,
}
use vbgw_pjsip_v.Common.Int.{ℤ, pos, ◌<ℤ◌, ◌≤ℤ◌}
use vbgw_pjsip_v.Redis.{Redis, Laws}
use vbgw_pjsip_v.CapacityManager.{
  lease_ttl_seconds, slots_key, lease_key, Reply, answered, lost_before, lost_after, Pipeline,
  ran_none, ran_first, ran_both, lease_script, lease_slot, release_slot, refresh_pipeline,
  refresh_found, refresh_lease, get_active_count,
}
use vbgw_pjsip_v.CapacityManager.Keys.{lease-ne-slots, slots_key-injective}

module _ (r : Redis) (laws : Laws r) (service : Text) (max : ℤ) where
  open r use {Store, zremrangebyscore, zcard, zadd, zrem, zscore, setex, expire, get}

  abbrev key : Text
  key = slots_key service

  abbrev WithinLimit : Store → Type 0
  WithinLimit s = pos (zcard key s) ≤ℤ max

  slots_ne : (other : Text) → other ≢ service → slots_key other ≢ key
  slots_ne other ne h = ne (slots_key-injective other service h)

  zcard-zadd-le' : (m : Text) (e : ℕ) (s : Store) → zcard key (zadd key e m s) ≤ suc (zcard key s)
  zcard-zadd-le' m e s = elim (Option-cases (zscore key m s)) [
    | inl new ↦ omega (arith, laws.zcard-zadd_new key m e s new)
    | inr (d, old) ↦ omega (arith, laws.zcard-zadd_old key m e d s old)
  ]

  purge-le :
      (other : Text) (t : ℕ) (s : Store)
      → zcard key (zremrangebyscore (slots_key other) t s) ≤ zcard key s
  purge-le other t s = elim (Text-cases other service) [
    | inl (e, _) ↦ rw e (laws.zcard-purge-le key t s)
    | inr (ne, _) ↦
        omega (arith, laws.zcard-purge_elsewhere (slots_key other) key t s (slots_ne other ne))
  ]

  -- The script keeps the limit, granted or not.
  script_own :
      (id : Text) (now : ℕ) (s : Store)
      → pos 0 <ℤ max
      → WithinLimit s
      → WithinLimit (lease_script r key (lease_key id) id max now lease_ttl_seconds service s).1
  unfolding lease_script
  script_own id now s p w =
      let purged = zremrangebyscore key now s in
      let added = zadd key (now + lease_ttl_seconds) id purged in
      ground (
        arith,
        laws.zcard-purge-le key now s,
        zcard-zadd-le' id (now + lease_ttl_seconds) purged,
        laws.zcard-setex (lease_key id) key service lease_ttl_seconds added
            (lease-ne-slots id service),
      )

  script_other :
      (other id : Text) (limit : ℤ) (now : ℕ) (s : Store)
      → other ≢ service
      → zcard key
          (lease_script r (slots_key other) (lease_key id) id limit now lease_ttl_seconds other s).1
        ≡ zcard key s
  unfolding lease_script
  script_other other id limit now s ne =
      let purged = zremrangebyscore (slots_key other) now s in
      let added = zadd (slots_key other) (now + lease_ttl_seconds) id purged in
      ground (
        arith,
        laws.zcard-purge_elsewhere (slots_key other) key now s (slots_ne other ne),
        laws.zcard-zadd_elsewhere (slots_key other) key id (now + lease_ttl_seconds) purged
            (slots_ne other ne),
        laws.zcard-setex (lease_key id) key other lease_ttl_seconds added
            (lease-ne-slots id service),
      )

  script_within :
      (other id : Text) (limit : ℤ) (now : ℕ) (s : Store)
      → pos 0 <ℤ max
      → (other ≡ service → limit ≡ max)
      → WithinLimit s
      → WithinLimit
          (lease_script r (slots_key other) (lease_key id) id limit now lease_ttl_seconds other s).1
  script_within other id limit now s p same w = elim (Text-cases other service) [
    | inl (e, _) ↦ rw (same e, e) (script_own id now s p w)
    | inr (ne, _) ↦ rw (script_other other id limit now s ne) w
  ]

  pub lease_within :
      (c : Bool) (reply : Reply) (now : ℕ) (id other : Text) (limit : ℤ) (s : Store)
      → pos 0 <ℤ max
      → (other ≡ service → limit ≡ max)
      → WithinLimit s
      → WithinLimit (lease_slot r c reply now id other limit s).1
  unfolding lease_slot
  lease_within false reply now id other limit s p same w = w
  lease_within true answered now id other limit s p same w =
      script_within other id limit now s p same w
  lease_within true lost_before now id other limit s p same w = w
  lease_within true lost_after now id other limit s p same w =
      script_within other id limit now s p same w

  zrem-le : (other id : Text) (s : Store) → zcard key (zrem (slots_key other) id s) ≤ zcard key s
  zrem-le other id s = elim (Text-cases other service) [
    | inl (e, _) ↦ rw e (laws.zcard-zrem-le key id s)
    | inr (ne, _) ↦
        omega (arith, laws.zcard-zrem_elsewhere (slots_key other) key id s (slots_ne other ne))
  ]

  pub release_within :
      (c : Bool) (ran : Pipeline) (other id : Text) (s : Store)
      → WithinLimit s
      → WithinLimit (release_slot r c ran other id s)
  unfolding release_slot
  release_within c ran other id s w = ground (
    arith,
    zrem-le other id s,
    laws.zcard-del (lease_key id) key (zrem (slots_key other) id s) (lease-ne-slots id service),
  )

  -- A heartbeat of a slot that its service's set still holds changes no count.
  refresh_count :
      (ran : Pipeline) (now : ℕ) (other id : Text) (s : Store)
      → (other ≡ service → zscore key id s ≢ none)
      → zcard key (refresh_pipeline r ran now other id s) ≡ zcard key s
  unfolding refresh_pipeline
  refresh_count ran_none now other id s held = refl
  refresh_count ran_first now other id s held =
      laws.zcard-expire (lease_key id) key lease_ttl_seconds s (lease-ne-slots id service)
  refresh_count ran_both now other id s held =
      let expired = expire (lease_key id) lease_ttl_seconds s in
      let apart = lease-ne-slots id service in
      elim (Text-cases other service) [
        | inr (ne, _) ↦
            laws.zcard-zadd_elsewhere (slots_key other) key id (now + lease_ttl_seconds) expired
              (slots_ne other ne)
            ∙ laws.zcard-expire (lease_key id) key lease_ttl_seconds s apart
        | inl (e, _) ↦ elim (Option-cases (zscore key id s)) [
          | inl gone ↦ absurd (held e gone)
          | inr (d, old) ↦ rw e (
              laws.zcard-zadd_old key id (now + lease_ttl_seconds) d expired
                (laws.zscore-expire (lease_key id) key id lease_ttl_seconds s apart ∙ old)
              ∙ laws.zcard-expire (lease_key id) key lease_ttl_seconds s apart)
        ]
      ]

  found_within :
      (found : Option Text) (ran : Pipeline) (now : ℕ) (id : Text) (s : Store)
      → (found ≡ some service → zscore key id s ≢ none)
      → WithinLimit s
      → WithinLimit (refresh_found r found ran now id s)
  unfolding refresh_found
  found_within none ran now id s held w = w
  found_within (some other) ran now id s held w =
      rw (refresh_count ran now other id s (λ e. held (ap some e))) w

  pub refresh_within :
      (c fails : Bool) (ran : Pipeline) (now : ℕ) (id : Text) (s : Store)
      → (get (lease_key id) s ≡ some service → zscore key id s ≢ none)
      → WithinLimit s
      → WithinLimit (refresh_lease r c fails ran now id s)
  unfolding refresh_lease
  refresh_within false fails ran now id s held w = w
  refresh_within true fails ran now [] s held w = w
  refresh_within true true ran now (b ∷ id) s held w = w
  refresh_within true false ran now (b ∷ id) s held w =
      found_within (get (lease_key (b ∷ id)) s) ran now (b ∷ id) s held w

  pub counts_within :
      (c : Bool) (reply : Reply) (fails : Bool) (now : ℕ) (other : Text) (s : Store)
      → WithinLimit s
      → WithinLimit (get_active_count r c reply fails now other s).1
  unfolding get_active_count
  counts_within c reply fails now other s w = ground (arith, purge-le other now s)
