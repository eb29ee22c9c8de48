-- ===== src/HttpServer/Fields.antt =====
-- What the JSON helpers take out of a body.
use vbgw_pjsip_v.Common.{
  ℕ, ◌≡◌, inl, inr, refl, sym, ap, ◌∙◌, Text, codes, none, some, [], ◌∷◌, ◌++◌, false, arith, ◌==◌,
  if◌then◌else◌, append_assoc, Bool-cases,
}
use vbgw_pjsip_v.HttpServer.Parse.{
  strip_prefix, or_later, after, cut, ◌>>=◌, quoted_after, parse_json_string_field,
}
use vbgw_pjsip_v.HttpServer.Validate.{contains_char}

strip_prefix_self : (key rest : Text) → strip_prefix key (key ++ rest) ≡ some rest
unfolding strip_prefix
strip_prefix_self [] rest = refl
strip_prefix_self (x ∷ xs) rest = ground (arith, strip_prefix_self xs rest)

cut_first :
    (c : ℕ) (before behind : Text)
    → contains_char before c ≡ false
    → cut c (before ++ c ∷ behind) ≡ some (before, behind)
unfolding cut
cut_first c [] behind h = ground arith
cut_first c (x ∷ before) behind h = elim (Bool-cases (x == c)) [
  | inl e ↦ ground (arith, h, e)
  | inr e ↦ rw (e, cut_first c before behind (ground (arith, h))) refl
]

after_self : (x : ℕ) (key rest s : Text) → s ≡ (x ∷ key) ++ rest → after (x ∷ key) s ≡ some rest
unfolding after
after_self x key rest s e =
    rw e (ap (λ o. or_later o (after (x ∷ key) (key ++ rest))) (strip_prefix_self (x ∷ key) rest))

after_other :
    (x c : ℕ) (key s : Text) → (x == c) ≡ false → after (x ∷ key) (c ∷ s) ≡ after (x ∷ key) s
unfolding after strip_prefix
after_other x c key s ne =
    ap (λ b. or_later (if b then strip_prefix key s else none) (after (x ∷ key) s)) ne

-- A body with one string member, printed without spaces, gives the value back, if that has no
-- quote.
pub parse_json_string_field-object :
    (field value : Text)
    → contains_char value 34 ≡ false
    → parse_json_string_field
        (codes "{\"" ++ (field ++ (codes "\":\"" ++ (value ++ codes "\"}"))))
        field
      ≡ some value
unfolding parse_json_string_field quoted_after cut
parse_json_string_field-object field value h =
    ap
      (λ found. found >>= λ rest. cut 58 rest >>= λ (_, v).
        cut 34 v >>= λ (_, opened). cut 34 opened >>= λ (out, _). some out)
      found_key
    ∙ ap (λ cut_value. cut_value >>= λ (out, _). some out) (cut_first 34 value (125 ∷ []) h)
  where
    rest_of_body : Text
    rest_of_body = 58 ∷ 34 ∷ (value ++ codes "\"}")

    found_key :
        after
          (34 ∷ field ++ 34 ∷ [])
          (codes "{\"" ++ (field ++ (codes "\":\"" ++ (value ++ codes "\"}"))))
        ≡ some rest_of_body
    found_key =
        after_other 34 123 (field ++ 34 ∷ []) (34 ∷ (field ++ 34 ∷ rest_of_body)) refl
        ∙ after_self 34 (field ++ 34 ∷ []) rest_of_body (34 ∷ (field ++ 34 ∷ rest_of_body))
            (ap (◌∷◌ 34) (sym (append_assoc field (34 ∷ []) rest_of_body)))
