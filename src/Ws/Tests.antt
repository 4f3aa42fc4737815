-- ===== src/Ws/Tests.antt =====
-- The WebSocket client at concrete inputs.
use pairion_client.Base.{◌+◌, ◌≡◌, refl, false, none, some}
use pairion_client.Qt.Toy.{toy}
use pairion_client.ConnectionState
use pairion_client.Ws.{
  Client, connect_to_server, disconnect_from_server, on_disconnected, new, current_backoff_ms,
  get_elem?, backoff_index, reconnect_backoff_ms,
}
use pairion_client.Ws.Backoff.{current_backoff_ms-eq-delay, retries, retries-reconnect_timer}
use pairion_client.Ws.Lifecycle.{
  at_start, calm_step, connect, socket_down, IsSound, CalmReach-new-IsSound,
}
use pairion_client.Ws.Disconnect.{Quiet, opens, disconnect_stays}

abbrev fresh : Client toy
fresh = new "ws://host" "device" "token" (ConnectionState.new toy)

current_backoff_ms-eq-delay_example :
    (get_elem? reconnect_backoff_ms (backoff_index 9) ≡ some 30000) × (current_backoff_ms 9 ≡ 30000)
current_backoff_ms-eq-delay_example = current_backoff_ms-eq-delay 9

retries-reconnect_timer_example :
    ((on_disconnected (retries 3 fresh)).reconnect_timer ≡ some 8000)
    × ((on_disconnected (retries 3 fresh)).reconnect_attempt ≡ 0 + 3 + 1)
retries-reconnect_timer_example = retries-reconnect_timer 3 fresh refl

CalmReach-new-IsSound_example :
    IsSound (on_disconnected (record (connect_to_server fresh) { socket_connected = false }))
CalmReach-new-IsSound_example =
    CalmReach-new-IsSound "ws://host" "device" "token" _ (
      calm_step (calm_step at_start (connect fresh) refl) (socket_down (connect_to_server fresh))
        tt)

disconnect_stays_example :
    let d = on_disconnected (record (disconnect_from_server fresh) { socket_connected = false }) in
    (opens d.trace ≡ 0) × (d.reconnect_timer ≡ none)
disconnect_stays_example =
    disconnect_stays fresh _ (Quiet.next Quiet.here (socket_down (disconnect_from_server fresh)) tt)
