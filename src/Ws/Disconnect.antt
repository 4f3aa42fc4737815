-- ===== src/Ws/Disconnect.antt =====
-- What follows a call of `disconnectFromServer`.
use pairion_client.Base.{ℕ, suc, ◌≡◌, refl, true, List, [], ◌∷◌, Option, none, some, arith}
use pairion_client.Qt.{Qt}
use pairion_client.Protocol.Messages.{InboundMessage, session_opened}
use pairion_client.Protocol.Envelope.{deserialize_from_string}
use pairion_client.Ws.{
  Effect, open_socket, Client, disconnect_from_server, send_message, send_binary_frame,
  on_connected, on_disconnected, dispatch, receive, on_text_message_received,
  on_binary_message_received, on_heartbeat_tick,
}
use pairion_client.Ws.Lifecycle.{
  Step, connect, disconnect, send, send_frame, socket_up, socket_down, text_in, binary_in,
  heartbeat_tick, reconnect_tick,
}

-- How often the client asked the socket to open.
abbrev pub opens : {q : Qt} → List (Effect q) → ℕ
opens [] = 0
opens (open_socket url ∷ es) = suc (opens es)
opens (_ ∷ es) = opens es

-- A step other than a call of `connectToServer`.
abbrev pub IsOther : {q : Qt} {c d : Client q} → Step c d → Type 0
IsOther (connect c) = ⊥
IsOther _ = Unit {0}

pub data Quiet {q : Qt} (c : Client q) : Client q → Type 0 where
  here : Quiet c c
  next : {d e : Client q} → Quiet c d → (s : Step d e) → IsOther s → Quiet c e

-- The user asked to disconnect, nothing is scheduled, and the socket was opened `n` times.
pub record IsAway {q : Qt} (c : Client q) (n : ℕ) : Type 0 where
  pub asked : c.intentional_disconnect ≡ true
  pub unscheduled : c.reconnect_timer ≡ none
  pub opened : opens c.trace ≡ n

module _ {q : Qt} where
  receive-IsAway :
      (m : Option (InboundMessage q)) (c : Client q) (n : ℕ) → IsAway c n → IsAway (receive m c) n
  unfolding dispatch
  receive-IsAway none c n v = v
  receive-IsAway (some (session_opened i s)) c n v = record {
    asked = v.asked;
    unscheduled = v.unscheduled;
    opened = v.opened;
  }
  receive-IsAway (some _) c n v = record {
    asked = v.asked;
    unscheduled = v.unscheduled;
    opened = v.opened;
  }

  Step-IsAway : {c d : Client q} (s : Step c d) (n : ℕ) → IsOther s → IsAway c n → IsAway d n
  unfolding disconnect_from_server send_message send_binary_frame on_connected on_disconnected
      on_text_message_received on_binary_message_received on_heartbeat_tick
  Step-IsAway (connect c) n o v = absurd o
  Step-IsAway (disconnect c) n o v = record { asked = refl; unscheduled = refl; opened = v.opened }
  Step-IsAway (send c m) n o v = record {
    asked = v.asked;
    unscheduled = v.unscheduled;
    opened = v.opened;
  }
  Step-IsAway (send_frame c bytes) n o v = record {
    asked = v.asked;
    unscheduled = v.unscheduled;
    opened = v.opened;
  }
  Step-IsAway (socket_up c version h) n o v = record {
    asked = v.asked;
    unscheduled = v.unscheduled;
    opened = v.opened;
  }
  Step-IsAway (socket_down c) n o v = record {
    asked = ground (arith, v.asked);
    unscheduled = ground (arith, v.asked, v.unscheduled);
    opened = ground (arith, v.asked, v.opened);
  }
  Step-IsAway (text_in c t h) n o v = receive-IsAway (deserialize_from_string q t) c n v
  Step-IsAway (binary_in c bytes h) n o v = record {
    asked = v.asked;
    unscheduled = v.unscheduled;
    opened = v.opened;
  }
  Step-IsAway (heartbeat_tick c now h) n o v = record {
    asked = v.asked;
    unscheduled = v.unscheduled;
    opened = v.opened;
  }
  Step-IsAway (reconnect_tick c ms h) n o v = absurd (ground (arith, v.unscheduled))

  Quiet-IsAway : {c d : Client q} (n : ℕ) → IsAway c n → Quiet c d → IsAway d n
  Quiet-IsAway n v here = v
  Quiet-IsAway n v (next r s o) = Step-IsAway s n o (Quiet-IsAway n v r)

  -- After `disconnectFromServer`, whatever happens other than a call of `connectToServer`, the
  -- client does not ask the socket to open again and schedules no reconnection.
  pub disconnect_stays :
      (c d : Client q)
      → Quiet (disconnect_from_server c) d
      → (opens d.trace ≡ opens c.trace) × (d.reconnect_timer ≡ none)
  unfolding disconnect_from_server
  disconnect_stays c d r =
      let v =
        Quiet-IsAway (opens c.trace) (record { asked = refl; unscheduled = refl; opened = refl })
          r in
      (v.opened, v.unscheduled)
