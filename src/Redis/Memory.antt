-- ===== src/Redis/Memory.antt =====
-- A small Redis in memory, which has the documented behaviour: the laws can be met.
use vbgw_pjsip_v.Common.{
  ℕ, suc, ◌+◌, ◌≤◌, ◌<◌, ◌≡◌, ◌≢◌, refl, sym, Text, text_eq, text_eq_iff, text_eq_refl, text_eq_ne,
  List, [], ◌∷◌, Option, none, some, arith, ltb, leb, lt→ltb, if◌then◌else◌, length,
}
use vbgw_pjsip_v.Redis.{Redis, Laws}

abbrev pub Members : Type 0
Members = List (Text × ℕ)

pub record Store : Type 0 where
  pub zset : Text → Members
  pub value : Text → Option (Text × ℕ)
  pub clock : ℕ

abbrev pub update {ℓ} : {A : Type ℓ} → (Text → A) → Text → A → Text → A
update f k a j = if text_eq k j then a else f j

abbrev pub empty : Store
empty = record { zset = λ k. []; value = λ k. none; clock = 0 }

unfoldable pub score : Text → Members → Option ℕ
score m [] = none
score m ((n, e) ∷ ms) = if text_eq m n then some e else score m ms

unfoldable pub add : Text → ℕ → Members → Members
add m e [] = (m, e) ∷ []
add m e ((n, d) ∷ ms) = if text_eq m n then (n, e) ∷ ms else (n, d) ∷ add m e ms

unfoldable pub remove : Text → Members → Members
remove m [] = []
remove m ((n, d) ∷ ms) = let rest = remove m ms in if text_eq m n then rest else (n, d) ∷ rest

unfoldable pub later_than : ℕ → Members → Members
later_than t [] = []
later_than t ((n, d) ∷ ms) = let rest = later_than t ms in if leb d t then rest else (n, d) ∷ rest

-- A value is there until it expires.
unfoldable pub value_at : ℕ → Option (Text × ℕ) → Option Text
value_at now none = none
value_at now (some (v, e)) = if ltb now e then some v else none

value_at_before : (now t : ℕ) (v : Text) → 0 < t → value_at now (some (v, now + t)) ≡ some v
unfolding value_at
value_at_before now t v p = rw (lt→ltb now (now + t) (omega arith)) refl

value_at-none : (now : ℕ) → value_at now none ≡ none
unfolding value_at
value_at-none now = refl

unfoldable pub extend : ℕ → Option Text → Option (Text × ℕ)
extend e none = none
extend e (some v) = some (v, e)

value_at-extend :
    (now t : ℕ) (v : Text) (o : Option Text)
    → 0 < t
    → o ≡ some v
    → value_at now (extend (now + t) o) ≡ some v
unfolding extend
value_at-extend now t v o p h = rw h (value_at_before now t v p)

abbrev pub memory : Redis
memory = record {
  Store = Store;
  zremrangebyscore = λ k t s. record s { zset = update s.zset k (later_than t (s.zset k)) };
  zcard = λ k s. length (s.zset k);
  zadd = λ k e m s. record s { zset = update s.zset k (add m e (s.zset k)) };
  zrem = λ k m s. record s { zset = update s.zset k (remove m (s.zset k)) };
  zscore = λ k m s. score m (s.zset k);
  setex = λ k t v s. record s { value = update s.value k (some (v, s.clock + t)) };
  expire = λ k t s. record s {
    value = update s.value k (extend (s.clock + t) (value_at s.clock (s.value k)));
  };
  del = λ k s. record s { value = update s.value k none };
  get = λ k s. value_at s.clock (s.value k);
}

score-add : (m : Text) (e : ℕ) (ms : Members) → score m (add m e ms) ≡ some e
unfolding score add
score-add m e [] = rw (text_eq_refl m) refl
score-add m e ((n, d) ∷ ms) = ground (arith, score-add m e ms)

score-add_ne : (m n : Text) (e : ℕ) (ms : Members) → m ≢ n → score n (add m e ms) ≡ score n ms
unfolding score add
score-add_ne m n e [] h = rw (text_eq_ne n m (λ p. h (sym p))) refl
score-add_ne m n e ((j, d) ∷ ms) h =
    ground (arith, score-add_ne m n e ms h, text_eq_iff m j, text_eq_iff n j)

length-add_new :
    (m : Text) (e : ℕ) (ms : Members) → score m ms ≡ none → length (add m e ms) ≡ suc (length ms)
unfolding score add
length-add_new m e [] h = refl
length-add_new m e ((n, d) ∷ ms) h = ground (arith, length-add_new m e ms)

length-add_old :
    (m : Text) (e d : ℕ) (ms : Members) → score m ms ≡ some d → length (add m e ms) ≡ length ms
unfolding score add
length-add_old m e d [] h = cc
length-add_old m e d ((n, f) ∷ ms) h = ground (arith, length-add_old m e d ms)

score-remove : (m : Text) (ms : Members) → score m (remove m ms) ≡ none
unfolding score remove
score-remove m [] = refl
score-remove m ((n, d) ∷ ms) = ground (arith, score-remove m ms)

score-remove_ne : (m n : Text) (ms : Members) → m ≢ n → score n (remove m ms) ≡ score n ms
unfolding score remove
score-remove_ne m n [] h = refl
score-remove_ne m n ((j, d) ∷ ms) h =
    ground (arith, score-remove_ne m n ms h, text_eq_iff m j, text_eq_iff n j)

length-remove-le : (m : Text) (ms : Members) → length (remove m ms) ≤ length ms
unfolding remove
length-remove-le m [] = omega arith
length-remove-le m ((n, d) ∷ ms) = ground (arith, length-remove-le m ms)

length-remove-lt :
    (m : Text) (e : ℕ) (ms : Members) → score m ms ≡ some e → length (remove m ms) < length ms
unfolding score remove
length-remove-lt m e [] h = cc
length-remove-lt m e ((n, d) ∷ ms) h =
    ground (arith, length-remove-lt m e ms, length-remove-le m ms)

score-later :
    (m : Text) (t e : ℕ) (ms : Members)
    → score m ms ≡ some e
    → t < e
    → score m (later_than t ms) ≡ some e
unfolding score later_than
score-later m t e [] h p = cc
score-later m t e ((n, d) ∷ ms) h p = ground (arith, score-later m t e ms)

score-later-lt : (m : Text) (t e : ℕ) (ms : Members) → score m (later_than t ms) ≡ some e → t < e
unfolding score later_than
score-later-lt m t e [] h = cc
score-later-lt m t e ((n, d) ∷ ms) h = ground (arith, score-later-lt m t e ms)

score-later_none :
    (m : Text) (t : ℕ) (ms : Members) → score m ms ≡ none → score m (later_than t ms) ≡ none
unfolding score later_than
score-later_none m t [] h = refl
score-later_none m t ((n, d) ∷ ms) h = ground (arith, score-later_none m t ms)

length-later-le : (t : ℕ) (ms : Members) → length (later_than t ms) ≤ length ms
unfolding later_than
length-later-le t [] = omega arith
length-later-le t ((n, d) ∷ ms) = ground (arith, length-later-le t ms)

pub memory-Laws : Laws memory
memory-Laws = record {
  zscore-zadd = λ k m e s. rw (text_eq_refl k) (score-add m e (s.zset k));
  zscore-zadd_ne = λ k m n e s h. rw (text_eq_refl k) (score-add_ne m n e (s.zset k) h);
  zcard-zadd_new = λ k m e s h. rw (text_eq_refl k) (length-add_new m e (s.zset k) h);
  zcard-zadd_old = λ k m e d s h. rw (text_eq_refl k) (length-add_old m e d (s.zset k) h);
  zscore-zrem = λ k m s. rw (text_eq_refl k) (score-remove m (s.zset k));
  zscore-zrem_ne = λ k m n s h. rw (text_eq_refl k) (score-remove_ne m n (s.zset k) h);
  zcard-zrem-le = λ k m s. rw (text_eq_refl k) (length-remove-le m (s.zset k));
  zcard-zrem-lt = λ k m e s h. rw (text_eq_refl k) (length-remove-lt m e (s.zset k) h);
  purge-keeps = λ k m t e s h p. rw (text_eq_refl k) (score-later m t e (s.zset k) h p);
  purge-removes = λ k m t e s h. score-later-lt m t e (s.zset k) (rw (text_eq_refl k) at h);
  purge-absent = λ k m t s h. rw (text_eq_refl k) (score-later_none m t (s.zset k) h);
  zcard-purge-le = λ k t s. rw (text_eq_refl k) (length-later-le t (s.zset k));
  zadd_elsewhere = λ k j m n e s h. rw (text_eq_ne k j h) refl;
  zrem_elsewhere = λ k j m n s h. rw (text_eq_ne k j h) refl;
  purge_elsewhere = λ k j n t s h. rw (text_eq_ne k j h) refl;
  zscore-setex = λ k j n v t s h. refl;
  zcard-setex = λ k j v t s h. refl;
  zscore-del = λ k j n s h. refl;
  zcard-del = λ k j s h. refl;
  zcard-expire = λ k j t s h. refl;
  zscore-expire = λ k j n t s h. refl;
  get-setex = λ k v t s p. rw (text_eq_refl k) (value_at_before s.clock t v p);
  get-del = λ k s. rw (text_eq_refl k) (value_at-none s.clock);
  zcard-zadd_elsewhere = λ k j m e s h. rw (text_eq_ne k j h) refl;
  zcard-zrem_elsewhere = λ k j m s h. rw (text_eq_ne k j h) refl;
  zcard-purge_elsewhere = λ k j t s h. rw (text_eq_ne k j h) refl;
  get-expire = λ k v t s p h.
      rw (text_eq_refl k) (value_at-extend s.clock t v (value_at s.clock (s.value k)) p h);
}
