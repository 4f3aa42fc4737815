-- ===== src/ConnectionState/Sync.antt =====
-- The properties of ConnectionState against what the bindings of QML hold.
use pairion_client.Base.{◌≡◌, refl, List, [], ◌∷◌, arith}
use pairion_client.Qt.{Qt}
use pairion_client.ConnectionState.{
  ConnectionState, new, set_status, set_session_id, set_server_version, set_reconnect_attempts,
  append_log, set_transcript_partial, set_transcript_final, set_agent_state, set_voice_state,
  append_llm_token, clear_llm_response, set_background_context, set_map_focus, clear_map_focus,
  set_background, set_active_background_id, add_overlay, remove_overlay, clear_overlays,
  set_scene_data, clear_scene_data, set_scene_transition, set_pipeline_health,
}
use pairion_client.ConnectionState.Slots.{Slot, status, call, calls}

-- Every property that QML shows has its current value.
abbrev pub IsSynced : {q : Qt} → ConnectionState q → Type 0
IsSynced c = c.seen ≡ c.props

module _ {q : Qt} where
  call-IsSynced : (s : Slot q) (c : ConnectionState q) → IsSynced c → IsSynced (call s c)
  unfolding call set_status set_session_id set_server_version set_reconnect_attempts append_log
      set_transcript_partial set_transcript_final set_agent_state set_voice_state append_llm_token
      clear_llm_response set_background_context set_map_focus clear_map_focus set_background
      set_active_background_id add_overlay remove_overlay clear_overlays set_scene_data
      clear_scene_data set_scene_transition set_pipeline_health
  call-IsSynced (status s) c h = ground arith
  call-IsSynced _ c h = ground arith

  calls-IsSynced : (ss : List (Slot q)) (c : ConnectionState q) → IsSynced c → IsSynced (calls ss c)
  unfolding calls
  calls-IsSynced [] c h = h
  calls-IsSynced (s ∷ ss) c h = calls-IsSynced ss (call s c) (call-IsSynced s c h)

-- After any sequence of slot calls on a new object, every property that QML holds has the value
-- of its member: no slot changes a property without the signal that announces it.
pub calls-new-IsSynced : (q : Qt) (ss : List (Slot q)) → IsSynced (calls ss (new q))
calls-new-IsSynced q ss = calls-IsSynced ss (new q) refl
