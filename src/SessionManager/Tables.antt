-- ===== src/SessionManager/Tables.antt =====
-- `std::unordered_map<std::string, T>` as an association list.
use vbgw_pjsip_v.Common.{
  suc, ◌≤◌, ◌≡◌, ◌≢◌, refl, Text, text_eq, text_eq_iff, Option, none, some, List, [], ◌∷◌, arith,
  if◌then◌else◌, length,
}

abbrev pub Table {ℓ} : Type ℓ → Type ℓ
Table V = List (Text × V)

module _ {ℓ} {V : Type ℓ} where
  unfoldable pub find : Text → Table V → Option V
  find k [] = none
  find k ((j, v) ∷ t) = if text_eq j k then some v else find k t

  -- `t[k] = v`
  unfoldable pub insert : Text → V → Table V → Table V
  insert k v [] = (k, v) ∷ []
  insert k v ((j, w) ∷ t) = if text_eq j k then (j, v) ∷ t else (j, w) ∷ insert k v t

  unfoldable pub erase : Text → Table V → Table V
  erase k [] = []
  erase k ((j, w) ∷ t) = if text_eq j k then t else (j, w) ∷ erase k t

  -- A key stands in the table once.
  abbrev pub IsUnique : Table V → Type ℓ
  IsUnique [] = Unit {ℓ}
  IsUnique ((j, w) ∷ t) = (find j t ≡ none) × IsUnique t

  pub find-insert :
      (k j : Text) (v : V) (t : Table V)
      → find j (insert k v t) ≡ (if text_eq k j then some v else find j t)
  unfolding find insert
  find-insert k j v [] = refl
  find-insert k j v ((i, w) ∷ t) =
      ground (arith, text_eq_iff k j, text_eq_iff i k, text_eq_iff i j, find-insert k j v t)

  pub find-erase_ne : (k j : Text) (t : Table V) → k ≢ j → find j (erase k t) ≡ find j t
  unfolding find erase
  find-erase_ne k j [] h = refl
  find-erase_ne k j ((i, w) ∷ t) h =
      ground (arith, text_eq_iff i k, text_eq_iff i j, find-erase_ne k j t h)

  pub find-erase : (k : Text) (t : Table V) → IsUnique t → find k (erase k t) ≡ none
  unfolding find erase
  find-erase k [] u = refl
  find-erase k ((i, w) ∷ t) u = ground (arith, text_eq_iff i k, find-erase k t u.1)

  pub insert-IsUnique : (k : Text) (v : V) (t : Table V) → IsUnique t → IsUnique (insert k v t)
  unfolding insert find
  insert-IsUnique k v [] u = (refl, tt)
  insert-IsUnique k v ((i, w) ∷ t) u =
      ground
        (arith, find-insert k i v t, text_eq_iff i k, text_eq_iff k i, insert-IsUnique k v t u.1)

  pub erase-IsUnique : (k : Text) (t : Table V) → IsUnique t → IsUnique (erase k t)
  unfolding erase
  erase-IsUnique k [] u = tt
  erase-IsUnique k ((i, w) ∷ t) u =
      ground (arith, find-erase_ne k i t, text_eq_iff i k, erase-IsUnique k t u.1)

  pub length-insert-le : (k : Text) (v : V) (t : Table V) → length (insert k v t) ≤ suc (length t)
  unfolding insert
  length-insert-le k v [] = omega arith
  length-insert-le k v ((i, w) ∷ t) = ground (arith, length-insert-le k v t)

  pub length-insert_new :
      (k : Text) (v : V) (t : Table V) → find k t ≡ none → length (insert k v t) ≡ suc (length t)
  unfolding insert find
  length-insert_new k v [] h = refl
  length-insert_new k v ((i, w) ∷ t) h = ground (arith, length-insert_new k v t)

  pub length-erase-le : (k : Text) (t : Table V) → length (erase k t) ≤ length t
  unfolding erase
  length-erase-le k [] = omega arith
  length-erase-le k ((i, w) ∷ t) = ground (arith, length-erase-le k t)

  pub length-erase :
      (k : Text) (t : Table V) {v : V} → find k t ≡ some v → suc (length (erase k t)) ≡ length t
  unfolding erase find
  length-erase k [] h = cc
  length-erase k ((i, w) ∷ t) {v} h = ground (arith, length-erase k t {v = v})
