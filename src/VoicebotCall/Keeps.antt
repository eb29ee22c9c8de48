-- ===== src/VoicebotCall/Keeps.antt =====
-- What the operations of src/engine/VoicebotCall.cpp leave of a call's end, its slot and its recording.
use vbgw_pjsip_v.Common.{
  ℕ, zero, suc, ◌≡◌, refl, ◌∙◌, Text, Option, none, some, List, [], ◌∷◌, ◌++◌, Bool, true, false,
  if◌then◌else◌, either, arith,
}
use vbgw_pjsip_v.Common.Int.{pos, ltb_ℤ}
use vbgw_pjsip_v.VoicebotCall.{Platform, VoicebotCall, World, Effect, cdr_logged, emit, set_call}
use vbgw_pjsip_v.VoicebotCall.Recording.{
  RecordingEnv, Prepared, prepared, not_prepared, prepare_path, record_into, start_recording,
  stop_recorder, stop_recording,
}

abbrev pub is_cdr : Effect → Bool
is_cdr (cdr_logged json) = true
is_cdr _ = false

-- How many CDR lines there are.
unfoldable pub cdrs : List Effect → ℕ
cdrs [] = zero
cdrs (e ∷ es) = let rest = cdrs es in if is_cdr e then suc rest else rest

pub cdrs-append :
    (es : List Effect) (e : Effect)
    → cdrs (es ++ e ∷ []) ≡ (if is_cdr e then suc (cdrs es) else cdrs es)
unfolding cdrs
cdrs-append [] e = refl
cdrs-append (f ∷ es) e = ground (arith, cdrs-append es e)

module _ (p : Platform) where
  -- A recorder is there exactly while the call is being recorded, and writes the file of that name.
  abbrev pub IsRecorded : VoicebotCall p → Type 0
  IsRecorded c = c.recorder ≡ (if c.recording_active then some c.recording_file_path else none)

  pub record Keeps (w w' : World p) : Type 0 where
    pub finalized : w'.call.lifecycle_finalized ≡ w.call.lifecycle_finalized
    pub cdrs_same : cdrs w'.effects ≡ cdrs w.effects
    pub slot_same : w'.call.slot_id ≡ w.call.slot_id
    pub recorded : IsRecorded w.call → IsRecorded w'.call

  pub Keeps-self : (w : World p) → Keeps w w
  Keeps-self w = record { finalized = refl; cdrs_same = refl; slot_same = refl; recorded = λ h. h }

  pub Keeps-trans : {u v w : World p} → Keeps u v → Keeps v w → Keeps u w
  Keeps-trans k l = record {
    finalized = l.finalized ∙ k.finalized;
    cdrs_same = l.cdrs_same ∙ k.cdrs_same;
    slot_same = l.slot_same ∙ k.slot_same;
    recorded = λ h. l.recorded (k.recorded h);
  }

  pub emit-Keeps : (e : Effect) (w : World p) → is_cdr e ≡ false → Keeps w (emit p e w)
  emit-Keeps e w h = record {
    finalized = refl;
    cdrs_same = cdrs-append w.effects e ∙ rw h refl;
    slot_same = refl;
    recorded = λ r. r;
  }

  -- A change of the call alone, in what does not matter here.
  pub call-Keeps :
      (c : VoicebotCall p) (w : World p)
      → c.lifecycle_finalized ≡ w.call.lifecycle_finalized
      → c.slot_id ≡ w.call.slot_id
      → (IsRecorded w.call → IsRecorded c)
      → Keeps w (set_call p c w)
  call-Keeps c w f s r = record { finalized = f; cdrs_same = refl; slot_same = s; recorded = r }

  pub start_recording-Keeps :
      (path : Text) (env : RecordingEnv) (w : World p)
      → Keeps w (set_call p (start_recording p path env w.call).1 w)
  unfolding start_recording record_into
  start_recording-Keeps path env w =
      let holds = λ (r : (Bool × Text) × VoicebotCall p). Keeps w (set_call p r.1 w) in
      let same = call-Keeps w.call w refl refl (λ h. h) in
      either holds w.call.recording_active same (
        either holds (ltb_ℤ w.call.primary_audio_media_index (pos 0)) same
          (into (prepare_path p path env w.call) env.recorder_error))
    where
      into :
          (out : Prepared) (error : Option Text)
          → Keeps w (set_call p (record_into p out error w.call).1 w)
      into (not_prepared message) error = call-Keeps w.call w refl refl (λ h. h)
      into (prepared file) (some info) = call-Keeps w.call w refl refl (λ h. h)
      into (prepared file) none = call-Keeps _ w refl refl (λ h. refl)

  pub stop_recording-IsRecorded :
      (error : Option Text) (c : VoicebotCall p) → IsRecorded (stop_recording p error c).1
  unfolding stop_recording stop_recorder
  stop_recording-IsRecorded error c = go c.recorder refl
    where
      go : (o : Option Text) → c.recorder ≡ o → IsRecorded (stop_recorder p o error c).1
      go none h = h
      go (some file) h = refl

  pub stop_recording-same :
      (error : Option Text) (c : VoicebotCall p)
      → let after = (stop_recording p error c).1 in
        (after.lifecycle_finalized ≡ c.lifecycle_finalized) × (after.slot_id ≡ c.slot_id)
  unfolding stop_recording stop_recorder
  stop_recording-same error c = go c.recorder
    where
      go :
          (o : Option Text)
          → let after = (stop_recorder p o error c).1 in
            (after.lifecycle_finalized ≡ c.lifecycle_finalized) × (after.slot_id ≡ c.slot_id)
      go none = (refl, refl)
      go (some file) = (refl, refl)
