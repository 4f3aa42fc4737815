-- ===== src/Memory/Pending.antt =====
-- The count of pending requests and the loading flag, against the requests in flight.
pub mod Counts
use pairion_client.Base.{
  ℕ, zero, suc, ◌+◌, ◌-◌, ◌≡◌, refl, sym, ◌∙◌, ap, subst, inl, inr, String, Bool, true, false, not,
  ◌&&◌, List, [], ◌∷◌, ◌++◌, arith, ltb, ◌==◌, str_eq, if◌then◌else◌, Bool-cases, length,
  length-append, map,
}
use pairion_client.Qt.{Qt}
use pairion_client.Memory.{
  Request, fetch_episodes, fetch_preferences, fetch_turns, Browser, Dates, set_loading,
  set_error_message, decrement_pending, clear_turns, clear_selection, refresh, select_episode,
  on_episodes_received, on_turns_received, on_preferences_received, on_fetch_error, new, bool_eq,
  emit, fetch, had_memory, is_empty, episode_of, turn_of, preference_of, episodes_changed,
  has_memory_changed, preferences_changed, selected_episode_turns_changed,
  selected_episode_id_changed,
}

-- The slot for the array that answers a request.
abbrev pub on_received : (q : Qt) → Dates → Request → List q.Value → Browser → Browser
on_received q dates fetch_episodes arr b = on_episodes_received q dates arr b
on_received q dates fetch_preferences arr b = on_preferences_received q dates arr b
on_received q dates (fetch_turns episode_id) arr b = on_turns_received q dates arr b

-- The panel's calls, and replies to requests in flight in any order.
pub data Step (q : Qt) (dates : Dates) : Browser → Browser → Type 0 where
  refreshes : (b : Browser) → Step q dates b (refresh b)
  selects : (b : Browser) (episode_id : String) → Step q dates b (select_episode episode_id b)
  clears : (b : Browser) → Step q dates b (clear_selection b)
  answered :
      (b : Browser) (before after : List Request) (r : Request) (arr : List q.Value)
      → b.in_flight ≡ before ++ (r ∷ after)
      → Step q dates b (on_received q dates r arr (record b { in_flight = before ++ after }))
  fails :
      (b : Browser) (before after : List Request) (r : Request) (op msg : String)
      → b.in_flight ≡ before ++ (r ∷ after)
      → Step q dates b (on_fetch_error op msg (record b { in_flight = before ++ after }))

pub data Reach (q : Qt) (dates : Dates) (b : Browser) : Browser → Type 0 where
  here : Reach q dates b b
  next : {c d : Browser} → Reach q dates b c → Step q dates c d → Reach q dates b d

-- The loading flag, the counter, and the requests in flight.
abbrev pub Ledger : Type 0
Ledger = Bool × (ℕ × List Request)

abbrev pub ledger : Browser → Ledger
ledger b = (b.loading, (b.pending_requests, b.in_flight))

-- A reply is counted off.
abbrev pub counted_off : Ledger → Ledger
counted_off (loading, (pending, requests)) =
    ((if pending - 1 == 0 then false else loading), (pending - 1, requests))

pub ledger-set_loading :
    (v : Bool) (b : Browser) → ledger (set_loading v b) ≡ (v, (b.pending_requests, b.in_flight))
unfolding set_loading
ledger-set_loading v b = elim (Bool-cases (bool_eq b.loading v)) [
  | inl e ↦
      rw (e, if◌then◌else◌) (ap (λ l. (l, (b.pending_requests, b.in_flight))) (same b.loading v e))
  | inr e ↦ rw (e, if◌then◌else◌) refl
]
  where
    same : (a c : Bool) → bool_eq a c ≡ true → a ≡ c
    same a c h = ground arith

pub ledger-set_error_message :
    (msg : String) (b : Browser) → ledger (set_error_message msg b) ≡ ledger b
unfolding set_error_message
ledger-set_error_message msg b = elim (Bool-cases (str_eq b.error_message msg)) [
  | inl e ↦ rw (e, if◌then◌else◌)
  | inr e ↦ rw (e, if◌then◌else◌)
]

pub ledger-clear_turns : (b : Browser) → ledger (clear_turns b) ≡ ledger b
unfolding clear_turns
ledger-clear_turns b = ground arith

pub ledger-clear_selection : (b : Browser) → ledger (clear_selection b) ≡ ledger b
unfolding clear_selection
ledger-clear_selection b = elim (Bool-cases (str_eq b.selected_episode_id "")) [
  | inl e ↦ rw (e, if◌then◌else◌) (ledger-clear_turns b)
  | inr e ↦ rw (e, if◌then◌else◌) (ledger-clear_turns _)
]

pub ledger-decrement_pending : (b : Browser) → ledger (decrement_pending b) ≡ counted_off (ledger b)
unfolding decrement_pending
ledger-decrement_pending b = elim (Bool-cases (b.pending_requests - 1 == 0)) [
  | inl e ↦
      rw (e, if◌then◌else◌)
        (ledger-set_loading false (record b { pending_requests = b.pending_requests - 1 }))
  | inr e ↦ rw (e, if◌then◌else◌)
]

pub ledger-refresh :
    (b : Browser)
    → ledger (refresh b) ≡ (true, (2, fetch_preferences ∷ (fetch_episodes ∷ b.in_flight)))
unfolding refresh
ledger-refresh b =
    let cleared = clear_selection (set_error_message "" b) in
    ap (λ l. (l.0, (l.1.0, fetch_preferences ∷ (fetch_episodes ∷ l.1.1))))
      (ledger-set_loading true (record cleared { pending_requests = 2 }))
    ∙ ap (λ l. (true, (2, fetch_preferences ∷ (fetch_episodes ∷ l.1.1))))
        (ledger-clear_selection (set_error_message "" b) ∙ ledger-set_error_message "" b)

pub ledger-select_episode :
    (episode_id : String) (b : Browser)
    → ledger (select_episode episode_id b)
      ≡ (true, (b.pending_requests + 1, fetch_turns episode_id ∷ b.in_flight))
unfolding select_episode
ledger-select_episode episode_id b = by_test (str_eq b.selected_episode_id episode_id)
  where
    chosen : Browser
    chosen = emit selected_episode_id_changed (record b { selected_episode_id = episode_id })

    opened : Browser → Ledger
    opened c =
        let b2 = clear_turns c in
        ledger (
          fetch (fetch_turns episode_id)
            (set_loading true (record b2 { pending_requests = b2.pending_requests + 1 })))

    from :
        (c : Browser)
        → opened c ≡ (true, (c.pending_requests + 1, fetch_turns episode_id ∷ c.in_flight))
    from c =
        let b2 = clear_turns c in
        ap (λ l. (l.0, (l.1.0, fetch_turns episode_id ∷ l.1.1)))
          (ledger-set_loading true (record b2 { pending_requests = b2.pending_requests + 1 }))
        ∙ ap (λ l. (true, (l.1.0 + 1, fetch_turns episode_id ∷ l.1.1))) (ledger-clear_turns c)

    by_test :
        (t : Bool)
        → opened (if t then b else chosen)
          ≡ (true, (b.pending_requests + 1, fetch_turns episode_id ∷ b.in_flight))
    by_test true = from b
    by_test false = from chosen

module _ (q : Qt) (dates : Dates) where
  pub ledger-on_received :
      (r : Request) (arr : List q.Value) (b : Browser)
      → ledger (on_received q dates r arr b) ≡ counted_off (ledger b)
  unfolding on_episodes_received on_turns_received on_preferences_received
  ledger-on_received fetch_episodes arr b =
      ledger-decrement_pending (had_memory (is_empty b.episodes) (stored arr))
      ∙ ap counted_off (by_test _)
    where
      stored : List q.Value → Browser
      stored arr = emit episodes_changed (record b { episodes = map (episode_of q dates) arr })

      by_test :
          (t : Bool)
          → ledger (if t then stored arr else emit has_memory_changed (stored arr)) ≡ ledger b
      by_test true = refl
      by_test false = refl
  ledger-on_received fetch_preferences arr b =
      ledger-decrement_pending
        (emit preferences_changed (record b { preferences = map (preference_of q dates) arr }))
  ledger-on_received (fetch_turns id) arr b = ledger-decrement_pending (
      emit selected_episode_turns_changed
        (record b { selected_episode_turns = map (turn_of q dates) arr }))

pub ledger-on_fetch_error :
    (op msg : String) (b : Browser) → ledger (on_fetch_error op msg b) ≡ counted_off (ledger b)
unfolding on_fetch_error
ledger-on_fetch_error op msg b =
    ledger-decrement_pending (set_error_message _ b) ∙ ap counted_off (ledger-set_error_message _ b)
