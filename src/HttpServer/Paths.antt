-- ===== src/HttpServer/Paths.antt =====
-- Which paths name a call, and which target URIs are let through.
use vbgw_pjsip_v.Common.{
  ℕ, ◌-◌, ◌≤◌, ◌<◌, ◌≡◌, ◌⊎◌, ◌↔◌, inl, inr, refl, sym, ap, ap₂, ◌∙◌, Text, codes, text_eq_refl,
  Text-cases, some, [], ◌∷◌, ◌++◌, Bool, true, false, arith, leb, length, take, drop, any,
  Bool-cases, Option-cases, length-append, length-take, take-append-drop,
}
use mathlib.Core.Option.{some_inj}
use vbgw_pjsip_v.Common.Membership.{In}
use vbgw_pjsip_v.HttpServer.Parse.{strip_prefix, strip_suffix, parse_session_id_from_path}
use vbgw_pjsip_v.HttpServer.Validate.{is_valid_sip_uri, contains_char, injection_chars}

strip_prefix_iff : (key s rest : Text) → (strip_prefix key s ≡ some rest) ↔ (s ≡ key ++ rest)
unfolding strip_prefix
strip_prefix_iff [] s rest = ground arith
strip_prefix_iff (x ∷ xs) [] rest = ground arith
strip_prefix_iff (x ∷ xs) (y ∷ ys) rest = ground (arith, strip_prefix_iff xs ys rest)

take-append_left : (xs ys : Text) → take (length xs) (xs ++ ys) ≡ xs
take-append_left [] ys = refl
take-append_left (x ∷ xs) ys = ap (◌∷◌ x) (take-append_left xs ys)

drop-append_length : (xs ys : Text) → drop (length xs) (xs ++ ys) ≡ ys
drop-append_length [] ys = refl
drop-append_length (x ∷ xs) ys = drop-append_length xs ys

strip_suffix_sound :
    (suffix s rest : Text)
    → strip_suffix suffix s ≡ some rest
    → (s ≡ rest ++ suffix) × (0 < length rest)
unfolding strip_suffix
strip_suffix_sound suffix s rest h = elim (Bool-cases (leb (length s) (length suffix))) [
  | inl short ↦ absurd (cc (rw short at h))
  | inr long ↦ elim (Text-cases (drop n s) suffix) [
    | inr (_, other) ↦ absurd (cc (rw (long, other) at h))
    | inl (e, same) ↦
        let kept = some_inj.0 (rw (long, same) at h) in
        (
          sym (take-append-drop n s) ∙ ap₂ ◌++◌ kept e,
          ground (arith, ap length kept, length-take n s, long),
        )
  ]
]
  where
    n : ℕ
    n = length s - length suffix

strip_suffix_complete :
    (suffix rest : Text) → 0 < length rest → strip_suffix suffix (rest ++ suffix) ≡ some rest
unfolding strip_suffix
strip_suffix_complete suffix rest p =
    rw
      (
        at_rest,
        drop-append_length rest suffix,
        take-append_left rest suffix,
        text_eq_refl suffix,
        is_longer,
      )
      refl
  where
    at_rest : length (rest ++ suffix) - length suffix ≡ length rest
    at_rest = omega (arith, length-append rest suffix)

    is_longer : leb (length (rest ++ suffix)) (length suffix) ≡ false
    is_longer = ground (arith, length-append rest suffix)

-- A path names the call with this id for an action exactly when it is the prefix, the id, which is
-- not empty, and the action.
pub parse_session_id_from_path_iff :
    (path suffix session_id : Text)
    → (parse_session_id_from_path path suffix ≡ some session_id)
      ↔ ((path ≡ codes "/api/v1/calls/" ++ session_id ++ suffix) × (0 < length session_id))
unfolding parse_session_id_from_path
parse_session_id_from_path_iff path suffix session_id = (
  λ h. elim (Option-cases (strip_prefix (codes "/api/v1/calls/") path)) [
    | inl other ↦ absurd (cc (rw other at h))
    | inr (rest, e) ↦
        let (split, p) = strip_suffix_sound suffix rest session_id (rw e at h) in
        (
          (strip_prefix_iff (codes "/api/v1/calls/") path rest).0 e
              ∙ ap (λ r. codes "/api/v1/calls/" ++ r) split,
          p,
        )
  ],
  λ (e, p).
      rw ((strip_prefix_iff (codes "/api/v1/calls/") path (session_id ++ suffix)).1 e)
        (strip_suffix_complete suffix session_id p),
)

In-any : (p : ℕ → Bool) (s : Text) (c : ℕ) → In c s → any p s ≡ false → p c ≡ false
In-any p [] c m h = absurd m
In-any p (d ∷ s) c (inl e) h = ground (arith, e, h)
In-any p (d ∷ s) c (inr m) h = In-any p s c m (ground (arith, h))

contains_char-In : (s : Text) (c : ℕ) → contains_char s c ≡ true → In c s
contains_char-In [] c h = cc
contains_char-In (d ∷ s) c h = ground (arith, contains_char-In s c)

In-contains_char : (s : Text) (c : ℕ) → In c s → contains_char s c ≡ true
In-contains_char [] c m = absurd m
In-contains_char (d ∷ s) c m = ground (arith, m, In-contains_char s c)

-- A target URI that is let through is 8 to 256 characters long, begins with a SIP scheme, has an @,
-- and none of the characters that could end the header it is put into.
pub is_valid_sip_uri-safe :
    (uri : Text)
    → is_valid_sip_uri uri ≡ true
    → (8 ≤ length uri)
      × (length uri ≤ 256)
      × ((rest : Text) × ((uri ≡ codes "sip:" ++ rest) ⊎ (uri ≡ codes "sips:" ++ rest)))
      × In 64 uri
      × ((c : ℕ) → In c uri → In c injection_chars → ⊥)
unfolding is_valid_sip_uri
is_valid_sip_uri-safe uri h = (
  ground (arith, h),
  ground (arith, h),
  scheme,
  contains_char-In uri 64 (ground (arith, h)),
  λ c m bad. cc (
    In-any (contains_char injection_chars) uri c m (ground (arith, h)),
    In-contains_char injection_chars c bad,
  ),
)
  where
    scheme : (rest : Text) × ((uri ≡ codes "sip:" ++ rest) ⊎ (uri ≡ codes "sips:" ++ rest))
    scheme = elim (Option-cases (strip_prefix (codes "sip:") uri)) [
      | inr (rest, e) ↦ (rest, inl ((strip_prefix_iff (codes "sip:") uri rest).0 e))
      | inl plain ↦ elim (Option-cases (strip_prefix (codes "sips:") uri)) [
        | inr (rest, e) ↦ (rest, inr ((strip_prefix_iff (codes "sips:") uri rest).0 e))
        | inl neither ↦ ground (arith, h, plain, neither)
      ]
    ]
