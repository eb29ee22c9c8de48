-- ===== src/AppConfig/Secure.antt =====
-- `isStrongAdminApiKey` of src/utils/AppConfig.h against what its message asks for.
use vbgw_pjsip_v.Common.{
  ℕ, ◌≤◌, ◌≡◌, ◌↔◌, inl, inr, refl, Text, codes, text_eq, is_empty, [], ◌∷◌, Bool, true, false, not,
  ◌&&◌, ◌||◌, arith, Text-cases, if◌then◌else◌, any, length, ltb,
}
use vbgw_pjsip_v.AppConfig.Read.{is_digit}
use vbgw_pjsip_v.AppConfig.Policy.{
  is_upper, is_lower, Classes, no_classes, classify, classes_loop, is_strong_admin_api_key,
}

abbrev pub is_symbol : ℕ → Bool
is_symbol c = not (is_upper c) && not (is_lower c) && not (is_digit c)

-- Sixteen characters, and one of each class.
abbrev pub IsStrong : Text → Type 0
IsStrong key =
    (16 ≤ length key)
    × (any is_upper key ≡ true)
    × (any is_lower key ≡ true)
    × (any is_digit key ≡ true)
    × (any is_symbol key ≡ true)

classes_loop_lem :
    (key : Text) (k : Classes)
    → (((classes_loop key k).has_upper ≡ (k.has_upper || any is_upper key))
        × ((classes_loop key k).has_lower ≡ (k.has_lower || any is_lower key))
        × ((classes_loop key k).has_digit ≡ (k.has_digit || any is_digit key))
        × ((classes_loop key k).has_symbol ≡ (k.has_symbol || any is_symbol key)))
unfolding classes_loop classify
classes_loop_lem [] k = ground arith
classes_loop_lem (c ∷ cs) k = ground (arith, classes_loop_lem cs (classify c k))

flags_iff :
    (key : Text)
    → ((if is_empty key || false || ltb (length key) 16
          then false
          else any is_upper key && any is_lower key && any is_digit key && any is_symbol key)
        ≡ true)
      ↔ IsStrong key
flags_iff [] = ground arith
flags_iff (c ∷ cs) = ground arith

default_iff :
    (key : Text)
    → any is_upper key ≡ false
    → ((if is_empty key || true || ltb (length key) 16
          then false
          else any is_upper key && any is_lower key && any is_digit key && any is_symbol key)
        ≡ true)
      ↔ IsStrong key
default_iff [] h = ground arith
default_iff (c ∷ cs) h = (λ e. cc, λ (n, u, l, d, s). cc)

abbrev default_key : Text
default_key = codes "changeme-admin-key"

any_flags :
    (key : Text)
    → is_strong_admin_api_key key ≡ (
        if is_empty key || text_eq key default_key || ltb (length key) 16
        then false
        else any is_upper key && any is_lower key && any is_digit key && any is_symbol key)
unfolding is_strong_admin_api_key
any_flags key = let (u, l, d, s) = classes_loop_lem key no_classes in rw (u, l, d, s)

-- The default key has no capital, so the test against it takes nothing away.
pub is_strong_admin_api_key_iff : (key : Text) → (is_strong_admin_api_key key ≡ true) ↔ IsStrong key
is_strong_admin_api_key_iff key = elim (Text-cases key default_key) [
  | inl (e, e') ↦ rw (any_flags key, e') (default_iff key (rw e refl))
  | inr (ne, e') ↦ rw (any_flags key, e') (flags_iff key)
]
