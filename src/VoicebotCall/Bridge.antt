-- ===== src/VoicebotCall/Bridge.antt =====
-- The bridge of two calls in src/engine/VoicebotCall.cpp, and the choice of the medium whose statistics
-- are read.
use vbgw_pjsip_v.Common.{
  ℕ, ◌+◌, Text, codes, Option, none, some, List, [], ◌∷◌, Bool, true, false, ◌||◌, not,
  if◌then◌else◌, length, get_or, leb,
}
use vbgw_pjsip_v.Common.Int.{ℤ, pos, pos_part, ltb_ℤ}
use vbgw_pjsip_v.VoicebotMediaPort.{MediaPort, set_ai_paused}
use vbgw_pjsip_v.VoicebotCall.{Platform, VoicebotCall}
use vbgw_pjsip_v.VoicebotCall.Conference.{Conference}

module _ (p : Platform) where
  -- `other`: null, the call itself, or another call.
  pub data Peer : Type 0 where
    no_peer : Peer
    itself : Peer
    another : VoicebotCall p → Peer

  unfoldable pub pause_port :
      Bool → Option (MediaPort p.network p.dsp) → Option (MediaPort p.network p.dsp)
  pause_port paused none = none
  pause_port paused (some port) = some (set_ai_paused p.network p.dsp paused port)

  -- `if (media_port_) media_port_->setAiPaused(paused)`
  unfoldable pub set_paused : Bool → VoicebotCall p → VoicebotCall p
  unfolding pause_port
  set_paused paused c = record c { media_port = pause_port paused c.media_port }

  -- What `getAudioMedia` gives: the port of the medium, or the message of its `pj::Error`.
  pub data AudioMedia : Type 0 where
    audio_media : ℕ → AudioMedia
    no_media : Text → AudioMedia

  module _ (k : Conference) where
    open k use {Links, start_transmit, stop_transmit}

    -- The result and the error message, both calls, and the links of the conference bridge.
    pub record Bridged : Type 0 where
      pub answer : Bool × Text
      pub call : VoicebotCall p
      pub peer : Peer
      pub links : Links

    abbrev refused : Text → VoicebotCall p → Peer → Links → Bridged
    refused message c peer s = record {
      answer = (false, message);
      call = c;
      peer = peer;
      links = s;
    }

    -- `startTransmit` or `stopTransmit`, between two ports.
    abbrev pub Transmission : Type 0
    Transmission = ℕ → ℕ → Links → Option Text × Links

    -- The second of two calls in a try block.
    unfoldable pub unless_raised :
        Option Text × Links → (Links → Option Text × Links) → Option Text × Links
    unless_raised (some info, s) next = (some info, s)
    unless_raised (none, s) next = next s

    -- From this medium to the other, and back.
    unfoldable pub both_ways : Transmission → Transmission
    unfolding unless_raised
    both_ways transmit a b s = unless_raised (transmit a b s) (transmit b a)

    -- What follows them in the try block, and its handler.
    unfoldable pub settle : Bool → VoicebotCall p → VoicebotCall p → Option Text × Links → Bridged
    settle paused c o (some info, s) = refused info c (another o) s
    settle paused c o (none, s) = record {
      answer = (true, []);
      call = set_paused paused c;
      peer = another (set_paused paused o);
      links = s;
    }

    -- The try block.
    unfoldable pub connect :
        Bool
        → Transmission
        → AudioMedia
        → AudioMedia
        → VoicebotCall p
        → VoicebotCall p
        → Links
        → Bridged
    unfolding both_ways settle
    connect paused transmit (no_media info) other c o s = refused info c (another o) s
    connect paused transmit (audio_media a) (no_media info) c o s = refused info c (another o) s
    connect paused transmit (audio_media a) (audio_media b) c o s =
        settle paused c o (both_ways transmit a b s)

    -- What `bridgeWith` and `unbridgeWith` share.
    unfoldable pub switch_bridge :
        Bool
        → Transmission
        → Text
        → AudioMedia
        → AudioMedia
        → VoicebotCall p
        → Peer
        → Links
        → Bridged
    unfolding connect
    switch_bridge paused transmit same this other c no_peer s =
        refused (codes "peer_call_not_found") c no_peer s
    switch_bridge paused transmit same this other c itself s = refused same c itself s
    switch_bridge paused transmit same this other c (another o) s =
        if ltb_ℤ c.primary_audio_media_index (pos 0) || ltb_ℤ o.primary_audio_media_index (pos 0)
        then refused (codes "audio_media_not_ready") c (another o) s
        else connect paused transmit this other c o s

    unfoldable pub bridge_with : AudioMedia → AudioMedia → VoicebotCall p → Peer → Links → Bridged
    unfolding switch_bridge
    bridge_with this other c peer s =
        switch_bridge true start_transmit (codes "cannot_bridge_same_call") this other c peer s

    unfoldable pub unbridge_with : AudioMedia → AudioMedia → VoicebotCall p → Peer → Links → Bridged
    unfolding switch_bridge
    unbridge_with this other c peer s =
        switch_bridge false stop_transmit (codes "cannot_unbridge_same_call") this other c peer s

-- The first medium that is audio, from this index on.
unfoldable pub first_audio : List Bool → ℕ → Option ℕ
first_audio [] i = none
first_audio (audio ∷ media) i = if audio then some i else first_audio media (i + 1)

unfoldable pub or_kept : Option ℕ → ℤ → ℤ
or_kept none kept = kept
or_kept (some i) kept = pos i

-- `med_idx` of `getRtpStatsSnapshot`, before its test; `media` says which are audio.
unfoldable pub stats_media_index : List Bool → ℤ → ℤ
unfolding or_kept
stats_media_index media primary =
    if ltb_ℤ primary (pos 0)
      || leb (length media) (pos_part primary)
      || not (get_or media (pos_part primary) false)
    then or_kept (first_audio media 0) primary
    else primary
