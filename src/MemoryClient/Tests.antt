-- ===== src/MemoryClient/Tests.antt =====
-- The memory client at concrete inputs.
use pairion_client.Base.{◌≡◌, refl, length, true, none, [], ◌∷◌}
use pairion_client.Memory.{
  Browser, Dates, fetch_turns, fetch_episodes, new, select_episode, on_turns_received,
}
use pairion_client.Memory.Pending.{Reach, here, ledger, counted_off}
use pairion_client.Memory.Shown.{shown}
use pairion_client.MemoryClient.Replies.{finish, show_reply, finish_lem}
use pairion_client.Qt.Toy.{toy}
use pairion_client.MemoryClient.{
  Documents, parse_error, object, failed, body, url_of, on_finished, deliver, fetch_error,
}

abbrev no_json : Documents toy
no_json = record { from_json = λ text. parse_error "empty"; to_array = λ v. [] }

turns_url :
    url_of "http://localhost:18789/v1" (fetch_turns "e1")
    ≡ "http://localhost:18789/v1/memory/episodes/e1/turns?userId=default-user"
unfolding url_of
turns_url = refl

unreachable_host :
    on_finished no_json fetch_episodes (failed "Connection refused")
    ≡ fetch_error "fetchEpisodes" "Connection refused"
unfolding on_finished
unreachable_host = refl

-- One request is in flight.
abbrev asked : Browser
asked = record new { loading = true; pending_requests = 1; in_flight = fetch_episodes ∷ [] }

abbrev no_dates : Dates
no_dates = record { from_iso = λ text. none; from_iso_with_ms = λ text. none }

-- Every body is an object whose list has two entries.
abbrev two_entries : Documents toy
two_entries = record {
  from_json = λ text. object toy.empty;
  to_array = λ v. toy.of_string "a" ∷ toy.of_string "b" ∷ [];
}

finish_lem_example :
    let taken = record asked { in_flight = [] } in
    let d = finish two_entries no_dates fetch_episodes (body (toy.print toy.empty)) taken in
    (shown d
      ≡ shown (show_reply two_entries no_dates fetch_episodes (body (toy.print toy.empty)) taken))
    × (ledger d ≡ counted_off (ledger taken))
    × Reach toy no_dates asked d
finish_lem_example =
    finish_lem two_entries no_dates asked asked [] [] fetch_episodes (body (toy.print toy.empty))
      refl here

-- Two episodes are selected one after the other; the turns of the first arrive last.
abbrev second_selected : Browser
second_selected = select_episode "e2" (select_episode "e1" new)

turns_of_other_episode :
    let b = record second_selected { in_flight = [] } in
    let d = finish two_entries no_dates (fetch_turns "e1") (body (toy.print toy.empty)) b in
    (d.selected_episode_id ≡ "e2") × (length d.selected_episode_turns ≡ 2)
unfolding select_episode on_finished deliver on_turns_received
turns_of_other_episode = (refl, refl)
