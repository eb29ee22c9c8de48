-- ===== src/VoicebotCall/Bridging.antt =====
-- A bridge of two calls and its end in src/engine/VoicebotCall.cpp, with the links that PJSIP keeps.
mod Tests
use vbgw_pjsip_v.Common.{
  ℕ, ◌≡◌, ◌≢◌, ◌⊎◌, inl, inr, refl, sym, ap, ap₂, ◌∙◌, Text, codes, Option, none, some, List, [],
  ◌∷◌, Bool, true, false, not, ◌||◌, if◌then◌else◌, arith,
}
use vbgw_pjsip_v.Common.Int.{pos, ltb_ℤ, ◌≤ℤ◌}
use vbgw_pjsip_v.RuntimeMetrics.{RuntimeMetrics}
use vbgw_pjsip_v.VoicebotMediaPort.{MediaPort, set_ai_paused, on_frame_received}
use vbgw_pjsip_v.VoicebotCall.{Platform, VoicebotCall}
use vbgw_pjsip_v.VoicebotCall.Conference.{Conference, Laws}
use vbgw_pjsip_v.VoicebotCall.Bridge.{
  Peer, no_peer, itself, another, set_paused, pause_port, audio_media, Bridged, Transmission,
  unless_raised, both_ways, settle, connect, switch_bridge, bridge_with, unbridge_with,
}

module _ (p : Platform) where
  -- The port of a call, if there is one, sends nothing on and reports nothing.
  abbrev pub PortDeaf : Option (MediaPort p.network p.dsp) → Type 0
  PortDeaf none = Unit {0}
  PortDeaf (some port) =
      (audio : Bool) (bytes : List ℕ) (m : RuntimeMetrics)
      → on_frame_received p.network p.dsp audio bytes (port, m) ≡ ([], (port, m))

  abbrev pub IsDeaf : VoicebotCall p → Type 0
  IsDeaf c = PortDeaf c.media_port

  abbrev pub PeerDeaf : Peer p → Type 0
  PeerDeaf no_peer = ⊥
  PeerDeaf itself = ⊥
  PeerDeaf (another o) = IsDeaf o

  -- The port of a call, if there is one, is not paused.
  abbrev pub PortHears : Option (MediaPort p.network p.dsp) → Type 0
  PortHears none = Unit {0}
  PortHears (some port) = port.ai_paused ≡ false

  abbrev pub IsHearing : VoicebotCall p → Type 0
  IsHearing c = PortHears c.media_port

  or_true : (b : Bool) → (b || true) ≡ true
  or_true true = refl
  or_true false = refl

  set_paused-Deaf : (c : VoicebotCall p) → IsDeaf (set_paused p true c)
  unfolding set_paused pause_port set_ai_paused on_frame_received
  set_paused-Deaf c = go c.media_port
    where
      go : (o : Option (MediaPort p.network p.dsp)) → PortDeaf (pause_port p true o)
      go none = tt
      go (some port) = λ audio bytes m. rw (or_true port.shutting_down) refl

  set_paused_back :
      (c : VoicebotCall p) → IsHearing c → set_paused p false (set_paused p true c) ≡ c
  unfolding set_paused pause_port set_ai_paused
  set_paused_back c h = ap (λ o. record c { media_port = o }) (go c.media_port h)
    where
      go :
          (o : Option (MediaPort p.network p.dsp))
          → PortHears o
          → pause_port p false (pause_port p true o) ≡ o
      go none h = refl
      go (some port) h = ap (λ b. some (record port { ai_paused = b })) (sym h)

  module _ (k : Conference) where
    open k use {Links, start_transmit, stop_transmit, transmits}

    -- A bridge that is made, or ended.
    abbrev made : Bool → VoicebotCall p → VoicebotCall p → Links → Bridged p k
    made paused c o s = record {
      answer = (true, []);
      call = set_paused p paused c;
      peer = another (set_paused p paused o);
      links = s;
    }

    settle-made :
        (paused : Bool) (c o : VoicebotCall p) (r : Option Text × Links)
        → (settle p k paused c o r).answer.0 ≡ true
        → (r.0 ≡ none) × (settle p k paused c o r ≡ made paused c o r.1)
    unfolding settle
    settle-made paused c o (none, s) h = (refl, refl)
    settle-made paused c o (some info, s) h = absurd (cc)

    switch_ready :
        (paused : Bool) (t : Transmission p k) (same : Text) (a b : ℕ) (c o : VoicebotCall p)
        (s : Links)
        → pos 0 ≤ℤ c.primary_audio_media_index
        → pos 0 ≤ℤ o.primary_audio_media_index
        → switch_bridge p k paused t same (audio_media a) (audio_media b) c (another o) s
          ≡ settle p k paused c o (both_ways p k t a b s)
    unfolding switch_bridge connect
    switch_ready paused t same a b c o s i j =
        let here : ltb_ℤ c.primary_audio_media_index (pos 0) ≡ false = ground arith in
        let there : ltb_ℤ o.primary_audio_media_index (pos 0) ≡ false = ground arith in
        rw (here, there) refl

    switch_made :
        (paused : Bool) (t : Transmission p k) (same : Text) (a b : ℕ) (c o : VoicebotCall p)
        (s : Links)
        → pos 0 ≤ℤ c.primary_audio_media_index
        → pos 0 ≤ℤ o.primary_audio_media_index
        → let r = switch_bridge p k paused t same (audio_media a) (audio_media b) c (another o) s in
          r.answer.0 ≡ true
          → let u = both_ways p k t a b s in (u.0 ≡ none) × (r ≡ made paused c o u.1)
    switch_made paused t same a b c o s i j h =
        let e = switch_ready paused t same a b c o s i j in
        let (none_raised, m) =
          settle-made paused c o (both_ways p k t a b s) (ap (λ r. r.answer.0) (sym e) ∙ h) in
        (none_raised, e ∙ m)

    -- Both calls of a try block have come back.
    raised-neither :
        (r : Option Text × Links) (next : Links → Option Text × Links)
        → (unless_raised p k r next).0 ≡ none
        → (r.0 ≡ none) × ((next r.1).0 ≡ none) × (unless_raised p k r next ≡ next r.1)
    unfolding unless_raised
    raised-neither (none, s) next h = (refl, h, refl)
    raised-neither (some info, s) next h = absurd (cc)

    module _ (t : Transmission p k) (v : Bool)
        (set : (a b : ℕ) (s : Links) → (t a b s).0 ≡ none → transmits a b (t a b s).1 ≡ v)
        (other : (a b c d : ℕ) (s : Links)
          → (c ≢ a) ⊎ (d ≢ b)
          → transmits c d (t a b s).1 ≡ transmits c d s) where
      -- Both directions are as they were asked to be, and any other pair as it was.
      both_ways_lem :
          (a b x y : ℕ) (s : Links)
          → a ≢ b
          → (both_ways p k t a b s).0 ≡ none
          → let s' = (both_ways p k t a b s).1 in
            (transmits a b s' ≡ v)
            × (transmits b a s' ≡ v)
            × ((x ≢ a) ⊎ (y ≢ b) → (x ≢ b) ⊎ (y ≢ a) → transmits x y s' ≡ transmits x y s)
      unfolding both_ways
      both_ways_lem a b x y s ne h =
          let (h1, h2, e) = raised-neither (t a b s) (t b a) h in
          let s1 = (t a b s).1 in
          let to : (c d : ℕ)
              → transmits c d (both_ways p k t a b s).1 ≡ transmits c d (t b a s1).1 =
            λ c d. ap (λ r. transmits c d r.1) e in
          (
            to a b ∙ other b a a b s1 (inl ne) ∙ set a b s h1,
            to b a ∙ set b a s1 h2,
            λ n m. to x y ∙ other b a x y s1 m ∙ other a b x y s n,
          )

    -- Which of the two calls of a bridge are deaf, and what is left of it.
    abbrev pub IsBridge : ℕ → ℕ → Bridged p k → Type 0
    IsBridge a b r =
        IsDeaf r.call
        × PeerDeaf r.peer
        × (transmits a b r.links ≡ true)
        × (transmits b a r.links ≡ true)

    -- For two calls with audio media at different ports, whose media ports hear, let a bridge and
    -- then its end both succeed. While the bridge stands each port is heard at the other and
    -- neither media port sends or reports anything. Afterwards neither port is heard at the other,
    -- any other pair of ports is linked as before the bridge, and both calls are as before it.
    pub unbridge_with-bridge_with :
        Laws k
        → (a b x y : ℕ) (c o : VoicebotCall p) (s : Links) → pos 0 ≤ℤ c.primary_audio_media_index
        → pos 0 ≤ℤ o.primary_audio_media_index
        → IsHearing c
        → IsHearing o
        → a ≢ b
        → (x ≢ a) ⊎ (y ≢ b)
        → (x ≢ b) ⊎ (y ≢ a)
        → let r = bridge_with p k (audio_media a) (audio_media b) c (another o) s in
          let q = unbridge_with p k (audio_media a) (audio_media b) r.call r.peer r.links in
          r.answer.0 ≡ true
          → q.answer.0 ≡ true
          → IsBridge a b r
            × (q.call ≡ c)
            × (q.peer ≡ another o)
            × (transmits a b q.links ≡ false)
            × (transmits b a q.links ≡ false)
            × (transmits x y q.links ≡ transmits x y s)
    unfolding bridge_with unbridge_with set_paused
    unbridge_with-bridge_with laws a b x y c o s i j h l ne n m ok ok' =
        let u = both_ways p k start_transmit a b s in
        let (up, e) =
          switch_made true start_transmit (codes "cannot_bridge_same_call") a b c o s i j ok in
        let c1 = set_paused p true c in
        let o1 = set_paused p true o in
        let v = both_ways p k stop_transmit a b u.1 in
        let again =
          ap (λ r. unbridge_with p k (audio_media a) (audio_media b) r.call r.peer r.links) e in
        let (down, e') =
          switch_made false stop_transmit (codes "cannot_unbridge_same_call") a b c1 o1 u.1 i j
            (ap (λ r. r.answer.0) (sym again) ∙ ok') in
        let (ab, ba, rest) =
          both_ways_lem start_transmit true laws.started laws.start_other a b x y s ne up in
        let (ab', ba', rest') =
          both_ways_lem stop_transmit false laws.stopped laws.stop_other a b x y u.1 ne down in
        let q = again ∙ e' in
        (
          (
            rw (ap (λ r. r.call) e) (set_paused-Deaf c),
            rw (ap (λ r. r.peer) e) (set_paused-Deaf o),
            ap (λ r. transmits a b r.links) e ∙ ab,
            ap (λ r. transmits b a r.links) e ∙ ba,
          ),
          ap (λ r. r.call) q ∙ set_paused_back c h,
          ap (λ r. r.peer) q ∙ ap another (set_paused_back o l),
          ap (λ r. transmits a b r.links) q ∙ ab',
          ap (λ r. transmits b a r.links) q ∙ ba',
          ap (λ r. transmits x y r.links) q ∙ rest' n m ∙ rest n m,
        )
