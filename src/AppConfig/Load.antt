-- ===== src/AppConfig/Load.antt =====
-- The whole constructor of `AppConfig` in src/utils/AppConfig.h, and `validateAiAddr`, which it calls.
use vbgw_pjsip_v.Common.{
  ℕ, Text, is_empty, Option, none, some, [], ◌∷◌, Bool, false, not, ◌||◌, ◌==◌, if◌then◌else◌, all,
}
use vbgw_pjsip_v.Common.Int.{ℤ, pos, ltb_ℤ}
use vbgw_pjsip_v.AppConfig.Read.{Env, is_digit, stoi}
use vbgw_pjsip_v.AppConfig.Settings.{
  read_sip, read_session, read_pbx_main, read_pbx_standby, read_rtp, read_jitter, read_redis_addr,
  pbx_mode,
}
use vbgw_pjsip_v.AppConfig.Plain.{AppConfig, read_nat, read_engine, read_call, read_admin}

-- A text cut at the last place of a character (`rfind`); `none` for `npos`.
unfoldable pub cut_last : ℕ → Text → Option (Text × Text)
cut_last c [] = none
cut_last c (x ∷ xs) = elim (cut_last c xs) [
  | some (before, behind) ↦ some (x ∷ before, behind)
  | none ↦ if x == c then some ([], xs) else none
]

unfoldable pub port_valid : Option ℤ → Option Bool
port_valid none = none
port_valid (some port) = some (not (ltb_ℤ port (pos 1) || ltb_ℤ (pos 65535) port))

addr_valid : Option (Text × Text) → Option Bool
addr_valid none = some false
addr_valid (some (host, port)) =
    if is_empty host || is_empty port
    then some false
    else if not (all is_digit port)
    then some false
    else port_valid (stoi port)

-- `validateAiAddr`: `valid`, which is only logged, or `none` where `std::stoi` throws.
unfoldable pub validate_ai_addr : Text → Option Bool
unfolding addr_valid port_valid
validate_ai_addr addr = addr_valid (cut_last 58 addr)

-- The fields that the constructor sets.
unfoldable pub settings : Env → AppConfig
settings env = record {
  sip = read_sip env;
  nat = read_nat env;
  session = read_session env;
  pbx_main = read_pbx_main env;
  pbx_standby = read_pbx_standby env;
  pbx_mode = pbx_mode (read_pbx_main env) (read_pbx_standby env);
  engine = read_engine env;
  call = read_call env;
  rtp = read_rtp env;
  jitter = read_jitter env;
  admin = read_admin env;
  redis_addr = read_redis_addr env;
}

-- The constructor; `none` where the exception of `validateAiAddr` leaves it.
unfoldable pub load : Env → Option AppConfig
load env = elim (validate_ai_addr (read_engine env).ai_engine_addr) [
  | none ↦ none
  | some valid ↦ some (settings env)
]
