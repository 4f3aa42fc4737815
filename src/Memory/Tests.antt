-- ===== src/Memory/Tests.antt =====
-- The memory browser at concrete inputs.
use pairion_client.Base.{◌≡◌, refl, false, not, ◌&&◌, ltb, ◌==◌, [], ◌∷◌, none, length}
use pairion_client.Qt.Toy.{toy}
use pairion_client.Memory.{
  fetch_episodes, fetch_preferences, fetch_turns, Browser, Dates, refresh, select_episode,
  on_fetch_error, new,
}
use pairion_client.Memory.Pending.{on_received, Reach, selects, fails, refreshes}
use pairion_client.Memory.Pending.Counts.{
  Reach-new-Counted, CalmReach, CalmReach-new-Exact, refresh_forgets,
}

abbrev dates : Dates
dates = record { from_iso = λ s. none; from_iso_with_ms = λ s. none }

abbrev refreshed : Browser
refreshed = refresh (select_episode "e1" new)

Reach-new-Counted_example :
    (refreshed.loading ≡ not (refreshed.pending_requests == 0))
    × (ltb (length refreshed.in_flight) refreshed.pending_requests ≡ false)
    × ((refreshed.loading && (length refreshed.in_flight == 0)) ≡ false)
Reach-new-Counted_example =
    Reach-new-Counted toy dates refreshed
      (Reach.next (Reach.next Reach.here (selects new "e1")) (refreshes (select_episode "e1" new)))

abbrev failed : Browser
failed =
    on_fetch_error "fetchTurns" "no route" (record (select_episode "e1" new) { in_flight = [] })

CalmReach-new-Exact_example :
    (failed.pending_requests ≡ length failed.in_flight)
    × (failed.loading ≡ not (length failed.in_flight == 0))
unfolding select_episode
CalmReach-new-Exact_example = CalmReach-new-Exact toy dates failed (
    CalmReach.calm_step (CalmReach.calm_step CalmReach.at_start (selects new "e1") tt)
      (fails (select_episode "e1" new) [] [] (fetch_turns "e1") "fetchTurns" "no route" refl) tt)

refresh_forgets_example :
    let b = select_episode "e1" new in
    let b1 = refresh b in
    let b2 =
      on_received toy dates fetch_preferences []
        (record b1 { in_flight = fetch_episodes ∷ b.in_flight }) in
    let b3 = on_received toy dates fetch_episodes [] (record b2 { in_flight = b.in_flight }) in
    (b1.in_flight ≡ fetch_preferences ∷ (fetch_episodes ∷ b.in_flight))
    × (b3.loading ≡ false)
    × (b3.in_flight ≡ b.in_flight)
refresh_forgets_example = refresh_forgets toy dates [] [] (select_episode "e1" new)
