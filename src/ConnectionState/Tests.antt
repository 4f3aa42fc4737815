-- ===== src/ConnectionState/Tests.antt =====
-- The slots of ConnectionState at concrete inputs.
use pairion_client.Base.{◌≡◌, ◌≤◌, refl, List, [], ◌∷◌, some, length, take, assign, erase}
use pairion_client.Qt.Toy.{toy}
use pairion_client.ConnectionState.{
  ConnectionState, connecting, new, set_status, append_log, add_overlay, remove_overlay,
  clear_overlays,
}
use pairion_client.ConnectionState.Slots.{
  Slot, status, log, overlay_add, overlay_remove, background, llm_token, call, calls,
}
use pairion_client.ConnectionState.Sync.{IsSynced, calls-new-IsSynced}
use pairion_client.ConnectionState.Logs.{logged, calls-recent_logs}
use pairion_client.ConnectionState.Overlays.{
  HasStack, overlays, overlay_slots_refine, calls-new-HasStack,
}

abbrev session : List (Slot toy)
session =
    status connecting
    ∷ log "a"
    ∷ overlay_add "adsb" toy.empty
    ∷ overlay_add "news" toy.empty
    ∷ llm_token "hi"
    ∷ background "space" toy.empty ""
    ∷ log "b"
    ∷ overlay_remove "adsb"
    ∷ []

session_logs : (calls session (new toy)).props.recent_logs ≡ "b" ∷ "a" ∷ []
unfolding calls call set_status append_log add_overlay remove_overlay
    pairion_client.ConnectionState.append_llm_token pairion_client.ConnectionState.set_background
session_logs = refl

calls-new-IsSynced_example : IsSynced (calls session (new toy))
calls-new-IsSynced_example = calls-new-IsSynced toy session

calls-recent_logs_example :
    ((calls session (new toy)).props.recent_logs ≡ take 50 (logged session []))
    × (length (calls session (new toy)).props.recent_logs ≤ 50)
calls-recent_logs_example = calls-recent_logs toy session

calls-new-HasStack_example : HasStack (calls session (new toy))
calls-new-HasStack_example = calls-new-HasStack toy session

overlay_slots_refine_example :
    let c = calls session (new toy) in
    (overlays (add_overlay "adsb" toy.empty c)
      ≡ assign "adsb" (some (toy.to_variant_map toy.empty)) (overlays c))
    × (overlays (remove_overlay "adsb" c) ≡ erase "adsb" (overlays c))
    × (overlays (clear_overlays c) ≡ [])
overlay_slots_refine_example =
    overlay_slots_refine "adsb" toy.empty (calls session (new toy)) calls-new-HasStack_example
