-- ===== src/AccountManager/Selection.antt =====
-- Which account src/engine/AccountManager.cpp selects after a round of probing.
use vbgw_pjsip_v.Common.{
  Text, codes, text_eq, Text-cases, ◌≡◌, inl, inr, refl, ap, ◌∙◌, Option, none, some, [], ◌∷◌, Bool,
  true, false, ◌&&◌, ◌||◌, is_some, if◌then◌else◌, arith, Bool-cases,
}
use vbgw_pjsip_v.SessionManager.Tables.{Table, find, insert, IsUnique, find-insert}
use vbgw_pjsip_v.AccountManager.{
  AccountPtr, AccountManager, or_no_account, get_account, get_primary_account, get_standby_account,
  is_healthy, or_healthy, touch, select_standby, select_outbound_account, probe, probing_round,
}

-- What the round leaves for a name.
abbrev probed : (AccountPtr → Bool) → Option AccountPtr → Option Bool → Option Bool
probed reg none before = before
probed reg (some account) before = some (reg account)

probe-find :
    (reg : AccountPtr → Bool) (targets : Table AccountPtr) (m : AccountManager) (name : Text)
    → IsUnique targets
    → find name (probe reg targets m).health_states
      ≡ probed reg (find name targets) (find name m.health_states)
unfolding probe find
probe-find reg [] m name u = refl
probe-find reg ((key, account) ∷ targets) m name (fresh, u) =
    let set = record m { health_states = insert key (reg account) m.health_states } in
    let later = probe-find reg targets set name u in
    let now = find-insert key name (reg account) m.health_states in
    elim (Text-cases key name) [
      | inl (same, e) ↦
          let gone : find name targets ≡ none = rw⁻¹ same fresh in
          rw e (later ∙ rw (gone, now, e) refl)
      | inr (ne, e) ↦ rw e (later ∙ ap (probed reg (find name targets)) (now ∙ rw e refl))
    ]

probe-accounts :
    (reg : AccountPtr → Bool) (targets : Table AccountPtr) (m : AccountManager)
    → (probe reg targets m).accounts ≡ m.accounts
unfolding probe
probe-accounts reg [] m = refl
probe-accounts reg ((key, account) ∷ targets) m =
    probe-accounts reg targets
      (record m { health_states = insert key (reg account) m.health_states })

-- Whether an account is there and registered.
abbrev pub is_active : (AccountPtr → Bool) → AccountPtr → Bool
is_active reg none = false
is_active reg (some account) = reg (some account)

found_healthy :
    (reg : AccountPtr → Bool) (found : Option AccountPtr) (before : Option Bool)
    → is_some (or_no_account found) ≡ true
    → or_healthy (probed reg found before) ≡ is_active reg (or_no_account found)
unfolding or_no_account or_healthy
found_healthy reg none before h = absurd (cc)
found_healthy reg (some none) before h = absurd (cc)
found_healthy reg (some (some account)) before h = refl

probed-healthy :
    (reg : AccountPtr → Bool) (m : AccountManager) (name : Text)
    → IsUnique m.accounts
    → is_some (get_account name m) ≡ true
    → is_healthy name (probing_round reg m) ≡ is_active reg (get_account name m)
unfolding is_healthy probing_round get_account
probed-healthy reg m name u h =
    ap or_healthy (probe-find reg m.accounts m name u)
    ∙ found_healthy reg (find name m.accounts) (find name m.health_states) h

-- The choice, by what is there and what counts as healthy.
pick : AccountPtr → AccountPtr → Bool → Bool → AccountPtr
pick main standby main_healthy standby_healthy =
    if is_some main && main_healthy
    then main
    else if is_some standby && standby_healthy
    then standby
    else if is_some main
    then main
    else standby

touch-healthy :
    (b : Bool) (m : AccountManager)
    → is_healthy (codes "standby") (if b then touch (codes "main") m else m)
      ≡ is_healthy (codes "standby") m
unfolding touch is_healthy text_eq
touch-healthy false m = refl
touch-healthy true m =
    ap or_healthy
      (find-insert (codes "main") (codes "standby") (is_healthy (codes "main") m) m.health_states)

first_of :
    {X Y : Type 0} (b : Bool) (x x' : X) (y y' : Y)
    → (if◌then◌else◌ {A = X × Y} b (x, y) (x', y')).0 ≡ (if b then x else x')
first_of true x x' y y' = refl
first_of false x x' y y' = refl

select_lem :
    (m : AccountManager)
    → (select_outbound_account m).0
      ≡ pick
          (get_primary_account m)
          (get_standby_account m)
          (is_healthy (codes "main") m)
          (is_healthy (codes "standby") m)
unfolding select_outbound_account select_standby pick
select_lem m =
    let main = get_primary_account m in
    let standby = get_standby_account m in
    elim (Bool-cases (is_some main && is_healthy (codes "main") m)) [
      | inl e ↦ rw e refl
      | inr e ↦
          rw (e, touch-healthy (is_some main) m)
            (first_of (is_some standby && is_healthy (codes "standby") m) _ _ _ _)
    ]

pick-active :
    (reg : AccountPtr → Bool) (main standby : AccountPtr) (main_healthy standby_healthy : Bool)
    → (is_some main ≡ true → main_healthy ≡ is_active reg main)
    → (is_some standby ≡ true → standby_healthy ≡ is_active reg standby)
    → (is_active reg main || is_active reg standby) ≡ true
    → is_active reg (pick main standby main_healthy standby_healthy) ≡ true
unfolding pick
pick-active reg none none hm hs p q h = h
pick-active reg none (some b) hm hs p q h = rw (q refl, h) h
pick-active reg (some a) none hm hs p q h = ground (arith, p refl, h)
pick-active reg (some a) (some b) hm hs p q h = ground (arith, p refl, q refl, h)

probed-account :
    (reg : AccountPtr → Bool) (m : AccountManager) (name : Text)
    → get_account name (probing_round reg m) ≡ get_account name m
unfolding get_account probing_round
probed-account reg m name = ap (λ t. or_no_account (find name t)) (probe-accounts reg m.accounts m)

-- After a round of probing, with each name once in the table, a call goes out on a registered
-- account if the main or the standby account is registered.
pub select_outbound_account-active :
    (reg : AccountPtr → Bool) (m : AccountManager)
    → IsUnique m.accounts
    → (is_active reg (get_primary_account m) || is_active reg (get_standby_account m)) ≡ true
    → is_active reg (select_outbound_account (probing_round reg m)).0 ≡ true
unfolding get_primary_account get_standby_account
select_outbound_account-active reg m u h =
    let after = probing_round reg m in
    rw
      (
        select_lem after,
        probed-account reg m (codes "main"),
        probed-account reg m (codes "standby"),
      )
      (pick-active reg (get_account (codes "main") m) (get_account (codes "standby") m)
        (is_healthy (codes "main") after) (is_healthy (codes "standby") after)
        (probed-healthy reg m (codes "main") u) (probed-healthy reg m (codes "standby") u) h)
