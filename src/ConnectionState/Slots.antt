-- ===== src/ConnectionState/Slots.antt =====
-- The public slots of ConnectionState as data, so that theorems speak of every call and of every
-- history of calls.
use pairion_client.Base.{ℕ, String, List, [], ◌∷◌}
use pairion_client.Qt.{Qt}
use pairion_client.ConnectionState.{
  Status, ConnectionState, set_status, set_session_id, set_server_version, set_reconnect_attempts,
  append_log, set_transcript_partial, set_transcript_final, set_agent_state, set_voice_state,
  append_llm_token, clear_llm_response, set_background_context, set_map_focus, clear_map_focus,
  set_background, set_active_background_id, add_overlay, remove_overlay, clear_overlays,
  set_scene_data, clear_scene_data, set_scene_transition, set_pipeline_health,
}

pub data Slot (q : Qt) : Type 0 where
  status : Status → Slot q
  session_id server_version : String → Slot q
  reconnect_attempts : ℕ → Slot q
  log transcript_partial transcript_final agent_state voice_state llm_token : String → Slot q
  llm_clear : Slot q
  background_context : String → Slot q
  map_focus : q.Double → q.Double → String → String → Slot q
  map_clear : Slot q
  background : String → q.Object → String → Slot q
  active_background_id : String → Slot q
  overlay_add : String → q.Object → Slot q
  overlay_remove : String → Slot q
  overlays_clear : Slot q
  scene_data : String → q.Variant → Slot q
  scene_clear : Slot q
  scene_transition pipeline_health : String → Slot q

module _ {q : Qt} where
  unfoldable pub call : Slot q → ConnectionState q → ConnectionState q
  call (status s) c = set_status s c
  call (session_id s) c = set_session_id s c
  call (server_version s) c = set_server_version s c
  call (reconnect_attempts n) c = set_reconnect_attempts n c
  call (log s) c = append_log s c
  call (transcript_partial s) c = set_transcript_partial s c
  call (transcript_final s) c = set_transcript_final s c
  call (agent_state s) c = set_agent_state s c
  call (voice_state s) c = set_voice_state s c
  call (llm_token s) c = append_llm_token s c
  call llm_clear c = clear_llm_response c
  call (background_context s) c = set_background_context s c
  call (map_focus a b s z) c = set_map_focus a b s z c
  call map_clear c = clear_map_focus c
  call (background i p t) c = set_background i p t c
  call (active_background_id s) c = set_active_background_id s c
  call (overlay_add i p) c = add_overlay i p c
  call (overlay_remove i) c = remove_overlay i c
  call overlays_clear c = clear_overlays c
  call (scene_data i v) c = set_scene_data i v c
  call scene_clear c = clear_scene_data c
  call (scene_transition s) c = set_scene_transition s c
  call (pipeline_health s) c = set_pipeline_health s c

  unfoldable pub calls : List (Slot q) → ConnectionState q → ConnectionState q
  calls [] c = c
  calls (s ∷ ss) c = calls ss (call s c)
