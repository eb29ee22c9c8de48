-- ===== src/VoicebotCall/Conference.antt =====
-- The conference bridge of PJSIP, which is not part of the repository: the audio media that
-- src/engine/VoicebotCall.cpp connects, and the documented behaviour that it relies on. An audio medium
-- is its port in the bridge. `startTransmit` and `stopTransmit` give the message of the `pj::Error` that
-- they end with, if any.
use vbgw_pjsip_v.Common.{ℕ, ◌≡◌, ◌≢◌, ◌⊎◌, Text, Option, none, Bool, true, false}

pub record Conference : Type 1 where
  pub Links : Type 0
  pub start_transmit : ℕ → ℕ → Links → Option Text × Links
  pub stop_transmit : ℕ → ℕ → Links → Option Text × Links
  -- Whether the first port is heard at the second; the gateway does not ask.
  pub transmits : ℕ → ℕ → Links → Bool

module _ (k : Conference) where
  open k use {Links, start_transmit, stop_transmit, transmits}

  -- A call that does not raise does what it says, and no call touches other pairs of ports.
  pub record Laws : Type 0 where
    pub started :
        (a b : ℕ) (s : Links)
        → (start_transmit a b s).0 ≡ none
        → transmits a b (start_transmit a b s).1 ≡ true
    pub start_other :
        (a b c d : ℕ) (s : Links)
        → (c ≢ a) ⊎ (d ≢ b)
        → transmits c d (start_transmit a b s).1 ≡ transmits c d s
    pub stopped :
        (a b : ℕ) (s : Links)
        → (stop_transmit a b s).0 ≡ none
        → transmits a b (stop_transmit a b s).1 ≡ false
    pub stop_other :
        (a b c d : ℕ) (s : Links)
        → (c ≢ a) ⊎ (d ≢ b)
        → transmits c d (stop_transmit a b s).1 ≡ transmits c d s
