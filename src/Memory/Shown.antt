-- ===== src/Memory/Shown.antt =====
-- src/memory/memory_browser_model.cpp: what the panel shows after each reply.
use pairion_client.Base.{
  ◌≡◌, refl, ◌∙◌, inl, inr, String, Bool, List, map, arith, str_eq-cases, str_eq_self,
  if◌then◌else◌,
}
use Prim.Native.String.{◌++◌ as append_text}
use pairion_client.Qt.{Qt}
use pairion_client.Memory.{
  Request, fetch_episodes, fetch_preferences, fetch_turns, Browser, Dates, Episode, Turn,
  Preference, set_loading, set_error_message, decrement_pending, on_episodes_received,
  on_turns_received, on_preferences_received, on_fetch_error, had_memory, is_empty, emit,
  episodes_changed, selected_episode_turns_changed, preferences_changed, episode_of, turn_of,
  preference_of,
}
use pairion_client.Memory.Pending.{on_received}

-- What the panel shows: the lists, the selected episode and the error message.
abbrev pub Shown : Type 0
Shown = List Episode × (List Turn × (List Preference × (String × String)))

abbrev pub shown : Browser → Shown
shown b = (
  b.episodes,
  (b.selected_episode_turns, (b.preferences, (b.selected_episode_id, b.error_message))),
)

abbrev pub show_error : String → Browser → Browser
show_error message b = record b { error_message = message }

shown-decrement_pending : (b : Browser) → shown (decrement_pending b) ≡ shown b
unfolding decrement_pending set_loading
shown-decrement_pending b = ground arith

shown-had_memory : (t : Bool) (b : Browser) → shown (had_memory t b) ≡ shown b
shown-had_memory t b = ground arith

shown-set_error_message :
    (message : String) (b : Browser)
    → shown (set_error_message message b) ≡ shown (show_error message b)
unfolding set_error_message
shown-set_error_message message b = elim (str_eq-cases b.error_message message) [
  | inl same ↦ rw (same, str_eq_self message, if◌then◌else◌) refl
  | inr other ↦ rw (other, if◌then◌else◌) refl
]

pub shown-on_fetch_error :
    (op message : String) (b : Browser)
    → shown (on_fetch_error op message b)
      ≡ shown (show_error (append_text op (append_text ": " message)) b)
unfolding on_fetch_error
shown-on_fetch_error op message b =
    let text = append_text op (append_text ": " message) in
    shown-decrement_pending (set_error_message text b) ∙ shown-set_error_message text b

module _ (q : Qt) (dates : Dates) where
  -- The list that a request asks for is replaced, and nothing else.
  abbrev pub show_list : Request → List q.Value → Browser → Browser
  show_list fetch_episodes arr b = record b { episodes = map (episode_of q dates) arr }
  show_list (fetch_turns episode_id) arr b = record b {
    selected_episode_turns = map (turn_of q dates) arr;
  }
  show_list fetch_preferences arr b = record b { preferences = map (preference_of q dates) arr }

  pub shown-on_received :
      (r : Request) (arr : List q.Value) (b : Browser)
      → shown (on_received q dates r arr b) ≡ shown (show_list r arr b)
  unfolding on_episodes_received on_turns_received on_preferences_received
  shown-on_received fetch_episodes arr b =
      shown-decrement_pending
        (had_memory (is_empty b.episodes) (emit episodes_changed (show_list fetch_episodes arr b)))
      ∙ shown-had_memory (is_empty b.episodes)
          (emit episodes_changed (show_list fetch_episodes arr b))
  shown-on_received (fetch_turns episode_id) arr b =
      shown-decrement_pending
        (emit selected_episode_turns_changed (show_list (fetch_turns episode_id) arr b))
  shown-on_received fetch_preferences arr b =
      shown-decrement_pending (emit preferences_changed (show_list fetch_preferences arr b))
