-- ===== src/Redis.antt =====
-- The Redis server, which is not part of the repository, as the commands that the gateway sends and
-- the documented behaviour that it relies on. Scores are epoch seconds.
pub mod Memory
use vbgw_pjsip_v.Common.{ℕ, suc, ◌+◌, ◌≤◌, ◌<◌, ◌≡◌, ◌≢◌, Text, Option, none, some}

pub record Redis : Type 1 where
  pub Store : Type 0
  -- ZREMRANGEBYSCORE key -inf max
  pub zremrangebyscore : Text → ℕ → Store → Store
  -- ZCARD key
  pub zcard : Text → Store → ℕ
  -- ZADD key score member
  pub zadd : Text → ℕ → Text → Store → Store
  -- ZREM key member
  pub zrem : Text → Text → Store → Store
  -- ZSCORE key member; the gateway does not send it
  pub zscore : Text → Text → Store → Option ℕ
  -- SETEX key seconds value
  pub setex : Text → ℕ → Text → Store → Store
  -- EXPIRE key seconds
  pub expire : Text → ℕ → Store → Store
  -- DEL key
  pub del : Text → Store → Store
  -- GET key
  pub get : Text → Store → Option Text

module _ (r : Redis) where
  open r use {Store, zremrangebyscore, zcard, zadd, zrem, zscore, setex, expire, del, get}

  -- A sorted set holds each member once, with its score; a command touches its own key only.
  pub record Laws : Type 0 where
    pub zscore-zadd : (k m : Text) (e : ℕ) (s : Store) → zscore k m (zadd k e m s) ≡ some e
    pub zscore-zadd_ne :
        (k m n : Text) (e : ℕ) (s : Store) → m ≢ n → zscore k n (zadd k e m s) ≡ zscore k n s
    pub zcard-zadd_new :
        (k m : Text) (e : ℕ) (s : Store)
        → zscore k m s ≡ none
        → zcard k (zadd k e m s) ≡ suc (zcard k s)
    pub zcard-zadd_old :
        (k m : Text) (e d : ℕ) (s : Store)
        → zscore k m s ≡ some d
        → zcard k (zadd k e m s) ≡ zcard k s
    pub zscore-zrem : (k m : Text) (s : Store) → zscore k m (zrem k m s) ≡ none
    pub zscore-zrem_ne : (k m n : Text) (s : Store) → m ≢ n → zscore k n (zrem k m s) ≡ zscore k n s
    pub zcard-zrem-le : (k m : Text) (s : Store) → zcard k (zrem k m s) ≤ zcard k s
    pub zcard-zrem-lt :
        (k m : Text) (e : ℕ) (s : Store) → zscore k m s ≡ some e → zcard k (zrem k m s) < zcard k s
    pub purge-keeps :
        (k m : Text) (t e : ℕ) (s : Store)
        → zscore k m s ≡ some e
        → t < e
        → zscore k m (zremrangebyscore k t s) ≡ some e
    pub purge-removes :
        (k m : Text) (t e : ℕ) (s : Store) → zscore k m (zremrangebyscore k t s) ≡ some e → t < e
    pub purge-absent :
        (k m : Text) (t : ℕ) (s : Store)
        → zscore k m s ≡ none
        → zscore k m (zremrangebyscore k t s) ≡ none
    pub zcard-purge-le :
        (k : Text) (t : ℕ) (s : Store) → zcard k (zremrangebyscore k t s) ≤ zcard k s
    pub zadd_elsewhere :
        (k j m n : Text) (e : ℕ) (s : Store) → k ≢ j → zscore j n (zadd k e m s) ≡ zscore j n s
    pub zrem_elsewhere :
        (k j m n : Text) (s : Store) → k ≢ j → zscore j n (zrem k m s) ≡ zscore j n s
    pub purge_elsewhere :
        (k j n : Text) (t : ℕ) (s : Store)
        → k ≢ j
        → zscore j n (zremrangebyscore k t s) ≡ zscore j n s
    pub zscore-setex :
        (k j n v : Text) (t : ℕ) (s : Store) → k ≢ j → zscore j n (setex k t v s) ≡ zscore j n s
    pub zcard-setex :
        (k j v : Text) (t : ℕ) (s : Store) → k ≢ j → zcard j (setex k t v s) ≡ zcard j s
    pub zscore-del : (k j n : Text) (s : Store) → k ≢ j → zscore j n (del k s) ≡ zscore j n s
    pub zcard-del : (k j : Text) (s : Store) → k ≢ j → zcard j (del k s) ≡ zcard j s
    pub zcard-expire : (k j : Text) (t : ℕ) (s : Store) → k ≢ j → zcard j (expire k t s) ≡ zcard j s
    pub zscore-expire :
        (k j n : Text) (t : ℕ) (s : Store) → k ≢ j → zscore j n (expire k t s) ≡ zscore j n s
    pub get-setex : (k v : Text) (t : ℕ) (s : Store) → 0 < t → get k (setex k t v s) ≡ some v
    pub get-del : (k : Text) (s : Store) → get k (del k s) ≡ none
    pub zcard-zadd_elsewhere :
        (k j m : Text) (e : ℕ) (s : Store) → k ≢ j → zcard j (zadd k e m s) ≡ zcard j s
    pub zcard-zrem_elsewhere : (k j m : Text) (s : Store) → k ≢ j → zcard j (zrem k m s) ≡ zcard j s
    pub zcard-purge_elsewhere :
        (k j : Text) (t : ℕ) (s : Store) → k ≢ j → zcard j (zremrangebyscore k t s) ≡ zcard j s
    pub get-expire :
        (k v : Text) (t : ℕ) (s : Store) → 0 < t → get k s ≡ some v → get k (expire k t s) ≡ some v
