-- ===== src/AccountManager/Tests.antt =====
-- Runs of the selection.
use vbgw_pjsip_v.Common.{◌≡◌, refl, codes, none, some, [], ◌∷◌, Bool, true, false, ◌==◌, text_eq}
use vbgw_pjsip_v.SessionManager.Tables.{find}
use vbgw_pjsip_v.AccountManager.{
  AccountPtr, AccountManager, probing_round, select_outbound_account, get_account,
  get_primary_account, get_standby_account,
}
use vbgw_pjsip_v.AccountManager.Selection.{is_active, select_outbound_account-active}

-- Only the second account is registered.
abbrev registered : AccountPtr → Bool
registered none = false
registered (some account) = account == 2

abbrev pair : AccountManager
pair = record {
  accounts = (codes "main", some 1) ∷ (codes "standby", some 2) ∷ [];
  health_states = [];
}

select_outbound_account-active_example :
    is_active registered (select_outbound_account (probing_round registered pair)).0 ≡ true
unfolding text_eq find get_account get_primary_account get_standby_account
select_outbound_account-active_example =
    select_outbound_account-active registered pair (refl, (refl, tt)) refl
