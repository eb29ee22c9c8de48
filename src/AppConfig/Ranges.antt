-- ===== src/AppConfig/Ranges.antt =====
-- What every setting that the constructor in src/utils/AppConfig.h leaves satisfies, whatever the
-- environment has.
use vbgw_pjsip_v.Common.{Bool, ◌&&◌}
use vbgw_pjsip_v.Common.Int.{ℤ, ltb_ℤ}
use vbgw_pjsip_v.AppConfig.Settings.{is_set}
use vbgw_pjsip_v.AppConfig.Plain.{AppConfig}

abbrev swaps : ℤ → ℤ → Bool
swaps low high = is_set high && is_set low && ltb_ℤ high low
