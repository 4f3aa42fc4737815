-- ===== src/Ws/Lifecycle.antt =====
-- The connection's life as a step relation: the calls of the application and the events of the
-- socket and the timers, in any order that QWebSocket and QTimer allow.
use pairion_client.Base.{
  ◌&&◌, not, ◌⊎◌, inl, inr, Bool-cases, Option-cases, none, some, true, false, ℕ, ◌≤◌, ◌≡◌, refl,
  ◌∙◌, String, Bool, List, [], ◌∷◌, Option, arith, eq_iff,
}
use pairion_client.Qt.{Qt}
use pairion_client.Protocol.Messages.{OutboundMessage, InboundMessage, session_opened}
use pairion_client.Protocol.Envelope.{deserialize_from_string}
use pairion_client.ConnectionState.{
  disconnected, connecting, connected, reconnecting, set_status, set_session_id, set_server_version,
  set_reconnect_attempts, set_transcript_partial, set_transcript_final, set_agent_state,
  append_llm_token, clear_llm_response, set_map_focus, clear_map_focus, set_background, add_overlay,
  remove_overlay, clear_overlays, set_scene_data,
}
use pairion_client.ConnectionState
use pairion_client.Ws.{
  Effect, open_socket, close_socket, disconnected_signal, Client, current_backoff_ms,
  connect_to_server, disconnect_from_server, send_message, send_binary_frame, on_connected,
  on_disconnected, dispatch, receive, on_text_message_received, on_binary_message_received,
  on_heartbeat_tick, on_reconnect_tick, new, note,
}

-- Whether the last thing asked of the socket is to open, with no disconnection since.
abbrev pub is_opening : {q : Qt} → List (Effect q) → Bool
is_opening [] = false
is_opening (open_socket url ∷ es) = true
is_opening (close_socket ∷ es) = false
is_opening (disconnected_signal ∷ es) = false
is_opening (_ ∷ es) = is_opening es

pub data Step {q : Qt} : Client q → Client q → Type 0 where
  connect : (c : Client q) → Step c (connect_to_server c)
  disconnect : (c : Client q) → Step c (disconnect_from_server c)
  send : (c : Client q) (m : OutboundMessage q) → Step c (send_message m c)
  send_frame : (c : Client q) (bytes : List ℕ) → Step c (send_binary_frame bytes c)
  socket_up :
      (c : Client q) (version : String)
      → is_opening c.trace ≡ true
      → Step c (on_connected version (record c { socket_connected = true }))
  -- also when an attempt to open fails
  socket_down : (c : Client q) → Step c (on_disconnected (record c { socket_connected = false }))
  text_in :
      (c : Client q) (t : q.Text)
      → c.socket_connected ≡ true
      → Step c (on_text_message_received t c)
  binary_in :
      (c : Client q) (bytes : List ℕ)
      → c.socket_connected ≡ true
      → Step c (on_binary_message_received bytes c)
  heartbeat_tick :
      (c : Client q) (now : String) → c.heartbeat_active ≡ true → Step c (on_heartbeat_tick now c)
  reconnect_tick :
      (c : Client q) (ms : ℕ)
      → c.reconnect_timer ≡ some ms
      → Step c (on_reconnect_tick (record c { reconnect_timer = none }))

-- A step other than a call of `connectToServer` while a reconnection is due.
abbrev pub IsCalm : {q : Qt} {c d : Client q} → Step c d → Type 0
IsCalm (connect c) = c.reconnect_timer ≡ none
IsCalm _ = Unit {0}

pub data CalmReach {q : Qt} (c : Client q) : Client q → Type 0 where
  at_start : CalmReach c c
  calm_step : {d e : Client q} → CalmReach c d → (s : Step d e) → IsCalm s → CalmReach c e

-- What holds while a reconnection is due.
pub record IsDue {q : Qt} (c : Client q) (ms : ℕ) : Type 0 where
  pub closed : c.socket_connected ≡ false
  pub unintended : c.intentional_disconnect ≡ false
  pub shown : c.conn_state.props.status ≡ reconnecting
  pub counted : 1 ≤ c.reconnect_attempt
  pub displayed : c.conn_state.props.reconnect_attempts ≡ c.reconnect_attempt
  pub delayed : ms ≡ current_backoff_ms c.reconnect_attempt
  pub idle : is_opening c.trace ≡ false

pub record Inv {q : Qt} (c : Client q) : Type 0 where
  pub beats : c.heartbeat_active ≡ true → c.socket_connected ≡ true
  pub no_session : c.socket_connected ≡ false → c.conn_state.props.session_id ≡ ""
  pub no_version : c.socket_connected ≡ false → c.conn_state.props.server_version ≡ ""
  pub due : (ms : ℕ) → c.reconnect_timer ≡ some ms → IsDue c ms

module _ {q : Qt} where
  -- What a text message leaves alone.
  receive_keeps :
      (m : Option (InboundMessage q)) (c : Client q)
      → ((receive m c).socket_connected ≡ c.socket_connected)
        × ((receive m c).heartbeat_active ≡ c.heartbeat_active)
        × ((receive m c).reconnect_timer ≡ c.reconnect_timer)
  unfolding dispatch
  receive_keeps none c = (refl, refl, refl)
  receive_keeps (some (session_opened i v)) c = (refl, refl, refl)
  receive_keeps (some _) c = (refl, refl, refl)

  text-Inv :
      (c : Client q) (t : q.Text)
      → c.socket_connected ≡ true
      → Inv c
      → Inv (on_text_message_received t c)
  unfolding on_text_message_received
  text-Inv c t up v =
      let k = receive_keeps (deserialize_from_string q t) c in
      record {
        beats = λ h. ground (arith, k);
        no_session = λ h. ground (arith, k);
        no_version = λ h. ground (arith, k);
        due = λ ms h. absurd (open_and_due ms (ground (arith, k)));
      }
    where
      open_and_due : (ms : ℕ) → c.reconnect_timer ≡ some ms → ⊥
      open_and_due ms h = ground (arith, (v.due ms h).closed)

  disconnect-Inv : (c : Client q) → Inv c → Inv (disconnect_from_server c)
  unfolding disconnect_from_server set_status set_session_id set_server_version
      set_reconnect_attempts
  disconnect-Inv c v = record {
    beats = λ h. ground arith;
    no_session = λ h. ground (arith, eq_iff c.conn_state.props.session_id "");
    no_version = λ h. ground (arith, eq_iff c.conn_state.props.server_version "");
    due = λ ms h. absurd (ground arith);
  }

  socket_up-Inv :
      (c : Client q) (version : String)
      → is_opening c.trace ≡ true
      → Inv c
      → Inv (on_connected version (record c { socket_connected = true }))
  unfolding on_connected set_reconnect_attempts
  socket_up-Inv c version h v = record {
    beats = λ e. refl;
    no_session = λ e. cc;
    no_version = λ e. cc;
    due = λ ms e. absurd (not_idle ms e);
  }
    where
      not_idle : (ms : ℕ) → c.reconnect_timer ≡ some ms → ⊥
      not_idle ms e = ground (arith, (v.due ms e).idle)

  -- A lost connection that was not asked for: what is scheduled is due.
  socket_down-IsDue :
      (c : Client q) (ms : ℕ)
      → c.intentional_disconnect ≡ false
      → let d = on_disconnected (record c { socket_connected = false }) in
        d.reconnect_timer ≡ some ms → IsDue d ms
  unfolding on_disconnected set_status set_session_id set_server_version set_reconnect_attempts
  socket_down-IsDue c ms h e = record {
    closed = ground arith;
    unintended = ground arith;
    shown = ground arith;
    counted = ground arith;
    displayed = ground arith;
    delayed = ground arith;
    idle = ground arith;
  }

  socket_down-Inv :
      (c : Client q) → Inv c → Inv (on_disconnected (record c { socket_connected = false }))
  unfolding on_disconnected set_status set_session_id set_server_version set_reconnect_attempts
  socket_down-Inv c v = record {
    beats = λ e. ground arith;
    no_session = λ e. ground (arith, eq_iff c.conn_state.props.session_id "");
    no_version = λ e. ground (arith, eq_iff c.conn_state.props.server_version "");
    due = λ ms e. elim (Bool-cases c.intentional_disconnect) [
      | inl intended ↦ absurd (ground (arith, (v.due ms (ground arith)).unintended))
      | inr unintended ↦ socket_down-IsDue c ms unintended e
    ];
  }

  -- An effect other than a call to open keeps what is due.
  note-Inv :
      (e : Effect q) (c : Client q)
      → is_opening (e ∷ c.trace) ≡ is_opening c.trace
      → Inv c
      → Inv (note e c)
  note-Inv e c same v = record {
    beats = v.beats;
    no_session = v.no_session;
    no_version = v.no_version;
    due = λ ms h.
        let d = v.due ms h in
        record {
          closed = d.closed;
          unintended = d.unintended;
          shown = d.shown;
          counted = d.counted;
          displayed = d.displayed;
          delayed = d.delayed;
          idle = same ∙ d.idle;
        };
  }

  connect-Inv : (c : Client q) → c.reconnect_timer ≡ none → Inv c → Inv (connect_to_server c)
  unfolding connect_to_server set_status
  connect-Inv c h v = record {
    beats = v.beats;
    no_session = λ e. ground (arith, v.no_session e);
    no_version = λ e. ground (arith, v.no_version e);
    due = λ ms e. cc;
  }

  -- Every such step keeps the invariant.
  Step-Inv : {c d : Client q} (s : Step c d) → IsCalm s → Inv c → Inv d
  unfolding on_reconnect_tick on_heartbeat_tick send_message send_binary_frame
      on_binary_message_received
  Step-Inv (connect c) h v = connect-Inv c h v
  Step-Inv (disconnect c) k v = disconnect-Inv c v
  Step-Inv (send c m) k v = note-Inv _ c refl v
  Step-Inv (send_frame c bytes) k v = note-Inv _ c refl v
  Step-Inv (socket_up c version h) k v = socket_up-Inv c version h v
  Step-Inv (socket_down c) k v = socket_down-Inv c v
  Step-Inv (text_in c t h) k v = text-Inv c t h v
  Step-Inv (binary_in c bytes h) k v = note-Inv _ c refl v
  Step-Inv (heartbeat_tick c now h) k v = note-Inv _ c refl v
  Step-Inv (reconnect_tick c ms h) k v =
      connect-Inv (record c { reconnect_timer = none }) refl
        (record {
          beats = v.beats;
          no_session = v.no_session;
          no_version = v.no_version;
          due = λ ms' e. cc;
        })

  CalmReach-Inv : {c d : Client q} → Inv c → CalmReach c d → Inv d
  CalmReach-Inv v at_start = v
  CalmReach-Inv v (calm_step r s k) = Step-Inv s k (CalmReach-Inv v r)

-- What the invariant says of a client, as one statement.
abbrev pub IsSound : {q : Qt} → Client q → Type 0
IsSound d =
    ((d.heartbeat_active && not d.socket_connected) ≡ false)
    × ((d.socket_connected ≡ true)
        ⊎ ((d.conn_state.props.session_id ≡ "") × (d.conn_state.props.server_version ≡ "")))
    × ((d.reconnect_timer ≡ none) ⊎ ((ms : ℕ) × ((d.reconnect_timer ≡ some ms) × IsDue d ms)))

Inv-IsSound : {q : Qt} (d : Client q) → Inv d → IsSound d
Inv-IsSound d v = (beat, session, timer)
  where
    beat : (d.heartbeat_active && not d.socket_connected) ≡ false
    beat = elim (Bool-cases d.heartbeat_active) [
      | inl e ↦ rw (e, v.beats e) refl
      | inr e ↦ rw (e) refl
    ]

    session :
        (d.socket_connected ≡ true)
        ⊎ ((d.conn_state.props.session_id ≡ "") × (d.conn_state.props.server_version ≡ ""))
    session = elim (Bool-cases d.socket_connected) [
      | inl e ↦ inl e
      | inr e ↦ inr (v.no_session e, v.no_version e)
    ]

    timer : (d.reconnect_timer ≡ none) ⊎ ((ms : ℕ) × ((d.reconnect_timer ≡ some ms) × IsDue d ms))
    timer = elim (Option-cases d.reconnect_timer) [
      | inl e ↦ inl e
      | inr e ↦ inr (e.0, (e.1, v.due e.0 e.1))
    ]

-- In every state that a new client reaches, by any order of calls and events in which
-- `connectToServer` is not called while a reconnection is due: the heartbeat runs only while the socket is connected; without a connection no session id and no server version are
-- shown; and while a reconnection is due the socket is closed, the user did not ask to disconnect,
-- the state shown is Reconnecting with the number of attempts, which is at least 1, and the timer
-- has the delay of that attempt.
pub CalmReach-new-IsSound :
    {q : Qt} (url device token : String) (d : Client q)
    → CalmReach (new url device token (ConnectionState.new q)) d
    → IsSound d
CalmReach-new-IsSound {q} url device token d r = Inv-IsSound d (
    CalmReach-Inv
      (record { beats = λ e. cc; no_session = λ e. refl; no_version = λ e. refl; due = λ ms e. cc })
      r)
