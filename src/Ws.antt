-- ===== src/Ws.antt =====
-- src/ws/pairion_websocket_client.cpp: the connection's life. QWebSocket and QTimer are not in the
-- repository: the model records the calls that the client makes on them, and the events that they
-- raise are calls of the handlers. The ConnectionState that the client shares stands inside it.
pub mod Backoff
pub mod Lifecycle
pub mod Disconnect
mod Tests
use pairion_client.Base.{
  ℕ, zero, suc, ◌+◌, ◌-◌, String, Bool, true, false, List, [], ◌∷◌, Option, none, some, str_eq, leb,
  ◌==◌, if◌then◌else◌,
}
use pairion_client.Qt.{Qt}
use pairion_client.Protocol.Messages.{
  OutboundMessage, device_identify, heartbeat_ping, InboundMessage, session_opened, session_closed,
  heartbeat_pong, error_message, agent_state_change, transcript_partial, transcript_final,
  llm_token_stream, audio_stream_start_out, audio_stream_end_out, map_focus, map_clear,
  background_change, overlay_add, overlay_remove, overlay_clear, scene_data_push,
}
use pairion_client.Protocol.Envelope.{serialize_to_string, deserialize_from_string}
use pairion_client.ConnectionState.{
  ConnectionState, disconnected, connecting, connected, reconnecting, set_status, set_session_id,
  set_server_version, set_reconnect_attempts, set_transcript_partial, set_transcript_final,
  set_agent_state, append_llm_token, clear_llm_response, set_map_focus, clear_map_focus,
  set_background, add_overlay, remove_overlay, clear_overlays, set_scene_data,
}

-- What the client does that others see: calls of QWebSocket, and signals.
pub data Effect (q : Qt) : Type 0 where
  open_socket : (url : String) → Effect q
  close_socket : Effect q
  send_text : q.Text → Effect q
  send_binary : List ℕ → Effect q
  session_opened_signal : (session_id server_version : String) → Effect q
  session_closed_signal : (reason : String) → Effect q
  server_error : (code message : String) → Effect q
  disconnected_signal : Effect q
  inbound_message : InboundMessage q → Effect q
  binary_frame_received : List ℕ → Effect q
  transcript_partial_received transcript_final_received : (text : String) → Effect q
  agent_state_received : (state : String) → Effect q
  llm_token_received : (delta : String) → Effect q
  audio_stream_start_out_received : (stream_id : String) → Effect q
  audio_stream_end_out_received : (stream_id reason : String) → Effect q

pub record Client (q : Qt) : Type 0 where
  -- whether `m_socket.state()` is ConnectedState
  pub socket_connected : Bool
  pub server_url : String
  pub device_id : String
  pub bearer_token : String
  pub conn_state : ConnectionState q
  pub heartbeat_active : Bool
  pub heartbeat_interval_ms : ℕ
  -- the time that the single-shot timer was started with, while it runs
  pub reconnect_timer : Option ℕ
  pub reconnect_attempt : ℕ
  pub intentional_disconnect : Bool
  -- newest first
  pub trace : List (Effect q)

-- src/core/constants.h
abbrev pub heartbeat_interval_default : ℕ
heartbeat_interval_default = 15000

abbrev pub reconnect_backoff_ms : List ℕ
reconnect_backoff_ms = 1000 ∷ 2000 ∷ 4000 ∷ 8000 ∷ 15000 ∷ 30000 ∷ []

abbrev pub reconnect_backoff_steps : ℕ
reconnect_backoff_steps = 6

-- A read of the array; out of range it would be undefined behaviour, which is `none`.
abbrev pub get_elem? : List ℕ → ℕ → Option ℕ
get_elem? [] i = none
get_elem? (x ∷ xs) zero = some x
get_elem? (x ∷ xs) (suc i) = get_elem? xs i

-- `idx` is an `int`: at attempt 0 it is -1, which the first guard sets to 0.
abbrev backoff_index : ℕ → ℕ
backoff_index attempt =
    let idx = if attempt == 0 then 0 else attempt - 1 in
    if leb reconnect_backoff_steps idx then reconnect_backoff_steps - 1 else idx

abbrev or_zero : Option ℕ → ℕ
or_zero none = 0
or_zero (some n) = n

unfoldable pub current_backoff_ms : ℕ → ℕ
current_backoff_ms attempt = or_zero (get_elem? reconnect_backoff_ms (backoff_index attempt))

-- The version text of the build (src/core/version.h.in), a parameter of `on_connected`.
module _ {q : Qt} where
  abbrev pub note : Effect q → Client q → Client q
  note e c = record c { trace = e ∷ c.trace }

  -- A call of a slot of the shared ConnectionState.
  abbrev pub tell : (ConnectionState q → ConnectionState q) → Client q → Client q
  tell f c = record c { conn_state = f c.conn_state }

  unfoldable pub connect_to_server : Client q → Client q
  connect_to_server c =
      note (open_socket c.server_url)
        (tell (set_status connecting) (record c { intentional_disconnect = false }))

  start_heartbeat : Client q → Client q
  start_heartbeat c = record c { heartbeat_active = true }

  stop_heartbeat : Client q → Client q
  stop_heartbeat c = record c { heartbeat_active = false }

  abbrev forget_session : ConnectionState q → ConnectionState q
  forget_session s = set_server_version "" (set_session_id "" s)

  unfoldable pub disconnect_from_server : Client q → Client q
  unfolding stop_heartbeat
  disconnect_from_server c =
      let stopped = record (stop_heartbeat (record c { intentional_disconnect = true })) {
        reconnect_timer = none;
      } in
      tell (λ s. set_reconnect_attempts 0 (forget_session (set_status disconnected s)))
        (note close_socket stopped)

  unfoldable pub send_message : OutboundMessage q → Client q → Client q
  send_message m c = note (send_text (serialize_to_string q m)) c

  abbrev pub is_connected : Client q → Bool
  is_connected c = c.socket_connected

  unfoldable pub set_heartbeat_interval_ms : ℕ → Client q → Client q
  set_heartbeat_interval_ms ms c = record c { heartbeat_interval_ms = ms }

  unfoldable pub send_binary_frame : List ℕ → Client q → Client q
  send_binary_frame bytes c = note (send_binary bytes) c

  unfoldable pub on_connected : String → Client q → Client q
  unfolding start_heartbeat send_message
  on_connected client_version c = start_heartbeat (
      send_message (device_identify c.device_id c.bearer_token client_version)
        (tell (set_reconnect_attempts 0) (record c { reconnect_attempt = 0 })))

  schedule_reconnect : Client q → Client q
  schedule_reconnect c =
      let attempt = c.reconnect_attempt + 1 in
      record (tell (λ s. set_reconnect_attempts attempt (set_status reconnecting s)) c) {
        reconnect_attempt = attempt;
        reconnect_timer = some (current_backoff_ms attempt);
      }

  -- `onDisconnected` up to its signal, and after it.
  unfoldable pub drop_session : Client q → Client q
  unfolding stop_heartbeat
  drop_session c = note disconnected_signal (tell forget_session (stop_heartbeat c))

  unfoldable pub after_disconnected : Client q → Client q
  unfolding schedule_reconnect
  after_disconnected c =
      if c.intentional_disconnect then tell (set_status disconnected) c else schedule_reconnect c

  unfoldable pub on_disconnected : Client q → Client q
  unfolding drop_session after_disconnected
  on_disconnected c = after_disconnected (drop_session c)

  abbrev clear_if_thinking : String → ConnectionState q → ConnectionState q
  clear_if_thinking state s = if str_eq state "thinking" then clear_llm_response s else s

  -- The `std::visit` of `onTextMessageReceived`; types with no branch fall through it.
  unfoldable pub dispatch : InboundMessage q → Client q → Client q
  dispatch (session_opened id version) c =
      note (session_opened_signal id version)
        (tell (λ s. set_server_version version (set_session_id id (set_status connected s))) c)
  dispatch (session_closed reason) c = note (session_closed_signal reason) c
  dispatch (heartbeat_pong timestamp) c = c
  dispatch (error_message code message) c = note (server_error code message) c
  dispatch (transcript_partial text) c =
      note (transcript_partial_received text) (tell (set_transcript_partial text) c)
  dispatch (transcript_final text) c =
      note (transcript_final_received text) (tell (set_transcript_final text) c)
  dispatch (agent_state_change state) c =
      note (agent_state_received state)
        (tell (λ s. set_agent_state state (clear_if_thinking state s)) c)
  dispatch (llm_token_stream delta) c =
      note (llm_token_received delta) (tell (append_llm_token delta) c)
  dispatch (audio_stream_start_out id codec rate) c = note (audio_stream_start_out_received id) c
  dispatch (audio_stream_end_out id reason) c = note (audio_stream_end_out_received id reason) c
  dispatch (map_focus lat lon label zoom) c = tell (set_map_focus lat lon label zoom) c
  dispatch map_clear c = tell clear_map_focus c
  dispatch (background_change id params transition) c = tell (set_background id params transition) c
  dispatch (overlay_add id params) c = tell (add_overlay id params) c
  dispatch (overlay_remove id) c = tell (remove_overlay id) c
  dispatch overlay_clear c = tell clear_overlays c
  dispatch (scene_data_push id payload) c = tell (set_scene_data id (q.to_variant payload)) c
  dispatch _ c = c

  abbrev pub receive : Option (InboundMessage q) → Client q → Client q
  receive none c = c
  receive (some m) c = dispatch m (note (inbound_message m) c)

  unfoldable pub on_text_message_received : q.Text → Client q → Client q
  unfolding dispatch
  on_text_message_received message c = receive (deserialize_from_string q message) c

  unfoldable pub on_binary_message_received : List ℕ → Client q → Client q
  on_binary_message_received bytes c = note (binary_frame_received bytes) c

  unfoldable pub on_heartbeat_tick : String → Client q → Client q
  unfolding send_message
  on_heartbeat_tick now c = send_message (heartbeat_ping now) c

  unfoldable pub on_reconnect_tick : Client q → Client q
  unfolding connect_to_server
  on_reconnect_tick c = connect_to_server c

-- The constructor.
abbrev pub new : {q : Qt} → String → String → String → ConnectionState q → Client q
new server_url device_id bearer_token conn_state = record {
  socket_connected = false;
  server_url = server_url;
  device_id = device_id;
  bearer_token = bearer_token;
  conn_state = conn_state;
  heartbeat_active = false;
  heartbeat_interval_ms = heartbeat_interval_default;
  reconnect_timer = none;
  reconnect_attempt = 0;
  intentional_disconnect = false;
  trace = [];
}
