-- ===== src/AccountManager.antt =====
-- src/engine/AccountManager.h and AccountManager.cpp: the SIP accounts and which of them a call goes
-- out on. `mutex_` is held for a whole access of the tables. What an account answers about its
-- registration is an argument.
pub mod Selection
mod Tests
use vbgw_pjsip_v.Common.{
  Text, codes, ℕ, Option, none, some, List, [], ◌∷◌, Bool, true, false, ◌&&◌, is_some,
  if◌then◌else◌,
}
use vbgw_pjsip_v.SessionManager.Tables.{Table, find, insert}

-- `std::shared_ptr<VoicebotAccount>`, an account by its identity.
abbrev pub AccountPtr : Type 0
AccountPtr = Option ℕ

pub record AccountManager : Type 0 where
  pub accounts : Table AccountPtr
  pub health_states : Table Bool

unfoldable pub create : AccountManager
create = record { accounts = []; health_states = [] }

unfoldable pub add_account : Text → AccountPtr → AccountManager → AccountManager
add_account name account m = record m { accounts = insert name account m.accounts }

or_no_account : Option AccountPtr → AccountPtr
or_no_account none = none
or_no_account (some account) = account

unfoldable pub get_account : Text → AccountManager → AccountPtr
unfolding or_no_account
get_account name m = or_no_account (find name m.accounts)

unfoldable pub get_primary_account : AccountManager → AccountPtr
get_primary_account m = get_account (codes "main") m

unfoldable pub get_standby_account : AccountManager → AccountPtr
get_standby_account m = get_account (codes "standby") m

-- `HealthState::healthy` of an entry that `operator[]` makes where there is none.
or_healthy : Option Bool → Bool
or_healthy none = true
or_healthy (some healthy) = healthy

unfoldable pub is_healthy : Text → AccountManager → Bool
unfolding or_healthy
is_healthy name m = or_healthy (find name m.health_states)

-- `health_states_[name]`, which leaves the entry there.
unfoldable pub touch : Text → AccountManager → AccountManager
touch name m = record m { health_states = insert name (is_healthy name m) m.health_states }

-- From the test of the standby account on.
unfoldable pub select_standby :
    AccountPtr → AccountPtr → AccountManager → AccountPtr × AccountManager
select_standby main standby m =
    let touched = if is_some standby then touch (codes "standby") m else m in
    if is_some standby && is_healthy (codes "standby") m
    then (standby, touched)
    else (if is_some main then main else standby, touched)

unfoldable pub select_outbound_account : AccountManager → AccountPtr × AccountManager
select_outbound_account m =
    let main = get_primary_account m in
    let standby = get_standby_account m in
    let touched = if is_some main then touch (codes "main") m else m in
    if is_some main && is_healthy (codes "main") m
    then (main, touched)
    else select_standby main standby touched

-- One round of `probingLoop` over its targets. `reg_is_active` is `getInfo().regIsActive`.
unfoldable pub probe : (AccountPtr → Bool) → Table AccountPtr → AccountManager → AccountManager
probe reg_is_active [] m = m
probe reg_is_active ((name, account) ∷ targets) m =
    probe reg_is_active targets
      (record m { health_states = insert name (reg_is_active account) m.health_states })

unfoldable pub probing_round : (AccountPtr → Bool) → AccountManager → AccountManager
probing_round reg_is_active m = probe reg_is_active m.accounts m
