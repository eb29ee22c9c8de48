-- ===== src/HttpServer/Parse.antt =====
-- The text helpers at the top of src/api/HttpServer.cpp that take values out of a request.
use vbgw_pjsip_v.Common.{
  ℕ, ◌+◌, ◌-◌, Text, codes, text_eq, is_empty, Option, none, some, [], ◌∷◌, ◌++◌, Bool, ◌&&◌, ◌||◌,
  leb, ◌==◌, if◌then◌else◌, length, take, drop,
}

-- What a text has left after a prefix of it.
unfoldable pub strip_prefix : Text → Text → Option Text
strip_prefix [] s = some s
strip_prefix (x ∷ xs) [] = none
strip_prefix (x ∷ xs) (y ∷ ys) = if x == y then strip_prefix xs ys else none

-- The first of two results that is there.
abbrev pub or_later : Option Text → Option Text → Option Text
or_later none later = later
or_later (some rest) later = some rest

-- `s.substr(s.find(key) + key.size())`; `none` for `npos`.
unfoldable pub after : Text → Text → Option Text
after key [] = strip_prefix key []
after key (c ∷ cs) = or_later (strip_prefix key (c ∷ cs)) (after key cs)

-- A text cut at the first place of a character, which neither part has; `none` for `npos`.
unfoldable pub cut : ℕ → Text → Option (Text × Text)
cut c [] = none
cut c (x ∷ xs) =
    if x == c
    then some ([], xs)
    else elim (cut c xs) [ some (before, behind) ↦ some (x ∷ before, behind) | none ↦ none ]

infixl 5 ◌>>=◌
abbrev pub ◌>>=◌ {ℓ κ} : {A : Type ℓ} {B : Type κ} → Option A → (A → Option B) → Option B
none >>= f = none
some a >>= f = f a

-- What stands between the first two quotes after the first colon after the key.
unfoldable pub quoted_after : Text → Text → Option Text
quoted_after key body = do
  rest ← after key body
  (_, value) ← cut 58 rest
  (_, opened) ← cut 34 value
  (out, _) ← cut 34 opened
  some out

-- A value that is not empty.
non_empty : Text → Option Text
non_empty [] = none
non_empty (c ∷ cs) = some (c ∷ cs)

unfoldable pub parse_target_uri : Text → Option Text
unfolding non_empty
parse_target_uri body = quoted_after (codes "\"target_uri\"") body >>= non_empty

unfoldable pub parse_json_string_field : Text → Text → Option Text
parse_json_string_field body field = quoted_after (34 ∷ field ++ 34 ∷ []) body

-- `std::isspace` in the C locale.
abbrev pub is_space : ℕ → Bool
is_space c = c == 32 || leb 9 c && leb c 13

unfoldable pub skip_spaces : Text → Text
skip_spaces [] = []
skip_spaces (c ∷ cs) = if is_space c then skip_spaces cs else c ∷ cs

-- The text without the spaces at its end.
unfoldable pub drop_last_spaces : Text → Text
drop_last_spaces [] = []
drop_last_spaces (c ∷ cs) =
    let rest = drop_last_spaces cs in if is_space c && is_empty rest then [] else c ∷ rest

unfoldable pub trim : Text → Text
trim s = drop_last_spaces (skip_spaces s)

-- `std::tolower` in the C locale.
unfoldable pub to_lower : Text → Text
to_lower [] = []
to_lower (c ∷ cs) = (if leb 65 c && leb c 90 then c + 32 else c) ∷ to_lower cs

-- The text without a suffix of it that leaves something.
unfoldable pub strip_suffix : Text → Text → Option Text
strip_suffix suffix s =
    let n = length s - length suffix in
    if leb (length s) (length suffix)
    then none
    else if text_eq (drop n s) suffix
    then some (take n s)
    else none

unfoldable pub parse_session_id_from_path : Text → Text → Option Text
parse_session_id_from_path path suffix = do
  rest ← strip_prefix (codes "/api/v1/calls/") path
  strip_suffix suffix rest
