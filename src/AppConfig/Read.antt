-- ===== src/AppConfig/Read.antt =====
-- The helpers of src/utils/AppConfig.h that read one variable of the process environment. `env` is
-- `std::getenv`, with `none` for a null pointer.
use vbgw_pjsip_v.Common.{
  ℕ, zero, suc, ◌+◌, ◌-◌, ◌*◌, ◌^◌, Text, codes, text_eq, Option, none, some, [], ◌∷◌, Bool, true,
  false, not, ◌&&◌, ◌||◌, ltb, leb, ◌==◌, if◌then◌else◌,
}
use vbgw_pjsip_v.Common.Int.{ℤ, pos, negsuc, ltb_ℤ}
use vbgw_pjsip_v.HttpServer.Parse.{skip_spaces, to_lower}

abbrev pub Env : Type 0
Env = Text → Option Text

-- `val && *val`
present : Option Text → Option Text
present (some (c ∷ cs)) = some (c ∷ cs)
present _ = none

unfoldable pub read_env : Env → Text → Option Text
unfolding present
read_env env name = present (env name)

or_default : Option Text → Text → Text
or_default none def = def
or_default (some val) def = val

unfoldable pub read_str : Env → Text → Text → Text
unfolding or_default
read_str env name def = or_default (read_env env name) def

-- `std::isdigit` in the C locale.
abbrev pub is_digit : ℕ → Bool
is_digit c = leb 48 c && leb c 57

-- The number that the digits at the start of a text give, from one read before them.
unfoldable pub digits_value : ℕ → Text → ℕ
digits_value n [] = n
digits_value n (c ∷ cs) =
    let rest = digits_value (n * 10 + (c - 48)) cs in if is_digit c then rest else n

starts_with_digit : Text → Bool
starts_with_digit [] = false
starts_with_digit (c ∷ cs) = is_digit c

abbrev pub negate : ℕ → ℤ
negate zero = pos 0
negate (suc n) = negsuc n

-- The digits after a sign, if they give an `int`.
unfoldable pub signed : Bool → Text → Option ℤ
unfolding starts_with_digit
signed minus s =
    let n = digits_value 0 s in
    if not (starts_with_digit s)
    then none
    else if minus
    then if leb n (2 ^ 31) then some (negate n) else none
    else if ltb n (2 ^ 31)
    then some (pos n)
    else none

stoi_sign : Text → Option ℤ
stoi_sign [] = none
stoi_sign (c ∷ cs) =
    if c == 45 then signed true cs else signed false (if c == 43 then cs else c ∷ cs)

-- `std::stoi`; `none` is its exception, `std::invalid_argument` or `std::out_of_range`. What follows
-- the digits is not looked at.
unfoldable pub stoi : Text → Option ℤ
unfolding stoi_sign
stoi s = stoi_sign (skip_spaces s)

-- The range test, or the handler of the exception.
accept_int : Option ℤ → ℤ → ℤ → ℤ → ℤ
accept_int none def min_val max_val = def
accept_int (some v) def min_val max_val = if ltb_ℤ v min_val || ltb_ℤ max_val v then def else v

int_of : Option Text → ℤ → ℤ → ℤ → ℤ
int_of none def min_val max_val = def
int_of (some val) def min_val max_val = accept_int (stoi val) def min_val max_val

unfoldable pub read_int : Env → Text → ℤ → ℤ → ℤ → ℤ
unfolding int_of accept_int
read_int env name def min_val max_val = int_of (read_env env name) def min_val max_val

unfoldable pub is_true_word : Text → Bool
is_true_word normalized =
    text_eq normalized (codes "1")
    || text_eq normalized (codes "true")
    || text_eq normalized (codes "yes")
    || text_eq normalized (codes "on")

bool_of : Option Text → Bool → Bool
bool_of none def = def
bool_of (some val) def = is_true_word (to_lower val)

unfoldable pub read_bool : Env → Text → Bool → Bool
unfolding bool_of
read_bool env name def = bool_of (read_env env name) def
