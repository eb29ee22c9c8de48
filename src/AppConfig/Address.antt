-- ===== src/AppConfig/Address.antt =====
-- `validateAiAddr` of src/utils/AppConfig.h on an address of a host and a number.
use vbgw_pjsip_v.Common.{
  ℕ, ◌^◌, ◌≡◌, refl, Text, is_empty, none, some, [], ◌∷◌, ◌++◌, true, false, ◌&&◌, arith, ◌==◌, leb,
  ltb, if◌then◌else◌, all,
}
use vbgw_pjsip_v.HttpServer.Parse.{is_space, skip_spaces}
use vbgw_pjsip_v.Common.Int.{pos}
use vbgw_pjsip_v.AppConfig.Read.{is_digit, digits_value, signed, stoi}
use vbgw_pjsip_v.AppConfig.Load.{cut_last, port_valid, validate_ai_addr}

-- A number has no colon.
cut_last-digits : (port : Text) → all is_digit port ≡ true → cut_last 58 port ≡ none
unfolding cut_last
cut_last-digits [] h = refl
cut_last-digits (c ∷ cs) h =
    let rest : all is_digit cs ≡ true = ground arith in rw (cut_last-digits cs rest) (ground arith)

cut_last-address :
    (host port : Text)
    → all is_digit port ≡ true
    → cut_last 58 (host ++ 58 ∷ port) ≡ some (host, port)
unfolding cut_last
cut_last-address [] port h = rw (cut_last-digits port h) refl
cut_last-address (c ∷ cs) port h = rw (cut_last-address cs port h) refl

-- A digit is neither a space nor a sign.
stoi-digits :
    (port : Text) → is_empty port ≡ false → all is_digit port ≡ true → stoi port ≡ signed false port
unfolding stoi skip_spaces
stoi-digits [] e h = absurd (cc)
stoi-digits (c ∷ cs) e h =
    let first : is_digit c ≡ true = ground arith in
    let space : is_space c ≡ false = ground arith in
    let minus : (c == 45) ≡ false = ground arith in
    let plus : (c == 43) ≡ false = ground arith in rw (space, minus, plus) refl

signed-digits :
    (c : ℕ) (cs : Text)
    → all is_digit (c ∷ cs) ≡ true
    → signed false (c ∷ cs) ≡ (
        if ltb (digits_value 0 (c ∷ cs)) (2 ^ 31)
        then some (pos (digits_value 0 (c ∷ cs)))
        else none)
unfolding signed
signed-digits c cs h = let first : is_digit c ≡ true = ground arith in rw first refl

port_valid_lem :
    (n : ℕ)
    → port_valid (if ltb n (2 ^ 31) then some (pos n) else none)
      ≡ (if leb (2 ^ 31) n then none else some (leb 1 n && leb n 65535))
unfolding port_valid
port_valid_lem n = ground arith

-- An address of a host, a colon and digits is accepted if the number is a port and rejected if it
-- is another int; for a number that no int holds the check leaves by an exception.
pub validate_ai_addr_lem :
    (host port : Text)
    → is_empty host ≡ false
    → is_empty port ≡ false
    → all is_digit port ≡ true
    → validate_ai_addr (host ++ 58 ∷ port) ≡ (
        if leb (2 ^ 31) (digits_value 0 port)
        then none
        else some (leb 1 (digits_value 0 port) && leb (digits_value 0 port) 65535))
unfolding validate_ai_addr
validate_ai_addr_lem host [] p q h = absurd (cc)
validate_ai_addr_lem host (c ∷ cs) p q h =
    rw (cut_last-address host (c ∷ cs) h, p, h, stoi-digits (c ∷ cs) q h, signed-digits c cs h)
      (port_valid_lem (digits_value 0 (c ∷ cs)))
