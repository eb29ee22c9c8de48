-- ===== src/VoicebotCall/Recording.antt =====
-- The recording of a call in src/engine/VoicebotCall.cpp.
use vbgw_pjsip_v.Common.{
  ℕ, Text, codes, is_empty, Option, none, some, [], ◌∷◌, ◌++◌, Bool, true, false, ◌==◌,
  if◌then◌else◌,
}
use vbgw_pjsip_v.Common.Int.{pos, ltb_ℤ}
use vbgw_pjsip_v.HttpServer.Validate.{contains_char}
use vbgw_pjsip_v.VoicebotCall.{Platform, VoicebotCall}
use vbgw_pjsip_v.VoicebotCall.Cdr.{decimal}

-- The setting, the errors of the file system and of PJSIP, and the clock in seconds.
pub record RecordingEnv : Type 0 where
  pub call_recording_dir : Text
  pub directory_error : Option Text
  pub recorder_error : Option Text
  pub now : ℕ

unfoldable pub ends_in_slash : Text → Bool
ends_in_slash [] = false
ends_in_slash (c ∷ []) = c == 47
ends_in_slash (c ∷ b ∷ cs) = ends_in_slash (b ∷ cs)

-- `std::filesystem::path::operator/` with the name of a file.
unfoldable pub join_path : Text → Text → Text
join_path dir file = if ends_in_slash dir then dir ++ file else dir ++ 47 ∷ file

-- The file to record into, or the error message.
pub data Prepared : Type 0 where
  prepared : Text → Prepared
  not_prepared : Text → Prepared

module _ (p : Platform) where
  -- A path that is given; only one with a parent has a directory made.
  unfoldable pub given_path : Text → Option Text → Prepared
  given_path path none = prepared path
  given_path path (some message) =
      if contains_char path 47
      then not_prepared (codes "failed_to_create_recording_parent: " ++ message)
      else prepared path

  unfoldable pub default_path : Text → Option Text → Prepared
  default_path path none = prepared path
  default_path path (some message) =
      not_prepared (codes "failed_to_create_recording_dir: " ++ message)

  unfoldable pub prepare_path : Text → RecordingEnv → VoicebotCall p → Prepared
  unfolding given_path default_path
  prepare_path file_path env c =
      let dir =
        if is_empty env.call_recording_dir then codes "recordings" else env.call_recording_dir in
      let name =
        codes "call_" ++ (c.session_id ++ (codes "_" ++ (decimal env.now ++ codes ".wav"))) in
      if is_empty file_path
      then default_path (join_path dir name) env.directory_error
      else given_path file_path env.directory_error

  unfoldable pub record_into :
      Prepared → Option Text → VoicebotCall p → (Bool × Text) × VoicebotCall p
  record_into (not_prepared message) recorder_error c = ((false, message), c)
  record_into (prepared path) (some info) c = ((false, info), c)
  record_into (prepared path) none c = (
    (true, []),
    record c { recorder = some path; recording_file_path = path; recording_active = true },
  )

  -- `startRecordingLocked`, and `startRecording`.
  unfoldable pub start_recording :
      Text → RecordingEnv → VoicebotCall p → (Bool × Text) × VoicebotCall p
  unfolding record_into
  start_recording file_path env c =
      if c.recording_active
      then ((true, []), c)
      else if ltb_ℤ c.primary_audio_media_index (pos 0)
      then ((false, codes "audio_media_not_ready"), c)
      else record_into (prepare_path file_path env c) env.recorder_error c

  unfoldable pub message_of : Option Text → Text
  message_of none = []
  message_of (some info) = info

  unfoldable pub stop_recorder :
      Option Text → Option Text → VoicebotCall p → (Bool × Text) × VoicebotCall p
  stop_recorder none stop_error c = ((true, []), record c { recording_active = false })
  stop_recorder (some path) stop_error c = (
    (true, if ltb_ℤ c.primary_audio_media_index (pos 0) then [] else message_of stop_error),
    record c { recorder = none; recording_active = false },
  )

  unfoldable pub stop_recording : Option Text → VoicebotCall p → (Bool × Text) × VoicebotCall p
  unfolding stop_recorder message_of
  stop_recording stop_error c = stop_recorder c.recorder stop_error c

  unfoldable pub is_recording : VoicebotCall p → Bool
  is_recording c = c.recording_active
