-- ===== src/AppConfig.antt =====
-- src/utils/AppConfig.h: `jsonEscape` here, the rest in the children.
pub mod Read
pub mod Settings
pub mod Plain
pub mod Load
pub mod Policy
pub mod Valid
pub mod Ranges
pub mod Secure
pub mod Passes
pub mod Address
mod Tests
use vbgw_pjsip_v.Common.{Text, codes, [], ◌∷◌, ◌++◌, ◌||◌, ◌==◌, if◌then◌else◌}

-- `AppConfig::jsonEscape`
unfoldable pub json_escape : Text → Text
json_escape [] = []
json_escape (c ∷ cs) =
    (if c == 92 || c == 34
      then 92 ∷ c ∷ []
      else if c == 10
      then codes "\\n"
      else if c == 13
      then codes "\\r"
      else c ∷ [])
    ++ json_escape cs
