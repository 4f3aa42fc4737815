-- ===== src/Memory.antt =====
-- src/memory/memory_browser_model.cpp: the model behind the memory browser panel. The requests that
-- the HTTP client has in flight are kept beside it; a reply is what memory_client.cpp makes of it,
-- an array or an error. The formatting of a date in the local time zone is an argument.
pub mod Pending
pub mod Shown
mod Tests
use pairion_client.Base.{
  ℕ, zero, suc, ◌+◌, ◌-◌, String, Bool, true, false, List, [], ◌∷◌, ◌++◌, map, Option, none, some,
  ltb, ◌==◌, str_eq, if◌then◌else◌,
}
use Prim.Native.String.{◌++◌ as append_text}
use pairion_client.Qt.{ℤ, Qt}

pub data Request : Type 0 where
  fetch_episodes fetch_preferences : Request
  fetch_turns : (episode_id : String) → Request

pub data MemorySignal : Type 0 where
  episodes_changed selected_episode_turns_changed preferences_changed loading_changed : MemorySignal
  error_message_changed selected_episode_id_changed has_memory_changed : MemorySignal

pub record Episode : Type 0 where
  pub id : String
  pub title : String
  pub start_time : String
  pub turn_count : ℤ

pub record Turn : Type 0 where
  pub role : String
  pub content : String
  pub timestamp : String

pub record Preference : Type 0 where
  pub key : String
  pub value : String
  pub updated_at : String

pub record Browser : Type 0 where
  pub episodes : List Episode
  pub selected_episode_turns : List Turn
  pub preferences : List Preference
  pub loading : Bool
  pub error_message : String
  pub selected_episode_id : String
  pub pending_requests : ℕ
  -- newest first
  pub emitted : List MemorySignal
  -- the requests in flight, newest first
  pub in_flight : List Request

-- `QDateTime::fromString` with each of the two formats, and the local time of a valid result.
pub record Dates : Type 0 where
  pub from_iso : String → Option String
  pub from_iso_with_ms : String → Option String

abbrev or_text : Option String → String → String
or_text none s = s
or_text (some t) s = t

unfoldable pub format_timestamp : Dates → String → String
format_timestamp dates iso =
    if str_eq iso ""
    then iso
    else or_text (dates.from_iso iso) (or_text (dates.from_iso_with_ms iso) iso)

abbrev is_empty {ℓ} : {A : Type ℓ} → List A → Bool
is_empty [] = true
is_empty (x ∷ xs) = false

abbrev pub emit : MemorySignal → Browser → Browser
emit s b = record b { emitted = s ∷ b.emitted }

abbrev pub bool_eq : Bool → Bool → Bool
bool_eq true true = true
bool_eq false false = true
bool_eq _ _ = false

pub set_loading : Bool → Browser → Browser
set_loading val b =
    if bool_eq b.loading val then b else emit loading_changed (record b { loading = val })

pub set_error_message : String → Browser → Browser
set_error_message msg b =
    if str_eq b.error_message msg
    then b
    else emit error_message_changed (record b { error_message = msg })

pub decrement_pending : Browser → Browser
unfolding set_loading
decrement_pending b =
    let b' = record b { pending_requests = b.pending_requests - 1 } in
    if b'.pending_requests == 0 then set_loading false b' else b'

-- `m_client->fetch…()`
abbrev pub fetch : Request → Browser → Browser
fetch r b = record b { in_flight = r ∷ b.in_flight }

pub clear_turns : Browser → Browser
clear_turns b =
    if is_empty b.selected_episode_turns
    then b
    else emit selected_episode_turns_changed (record b { selected_episode_turns = [] })

unfoldable pub clear_selection : Browser → Browser
unfolding clear_turns
clear_selection b = clear_turns (
    if str_eq b.selected_episode_id ""
    then b
    else emit selected_episode_id_changed (record b { selected_episode_id = "" }))

unfoldable pub refresh : Browser → Browser
unfolding set_error_message clear_selection set_loading
refresh b =
    let b1 = record (clear_selection (set_error_message "" b)) { pending_requests = 2 } in
    fetch fetch_preferences (fetch fetch_episodes (set_loading true b1))

unfoldable pub select_episode : String → Browser → Browser
unfolding clear_turns set_loading
select_episode episode_id b =
    let b1 =
      if str_eq b.selected_episode_id episode_id
      then b
      else emit selected_episode_id_changed (record b { selected_episode_id = episode_id }) in
    let b2 = clear_turns b1 in
    fetch (fetch_turns episode_id)
      (set_loading true (record b2 { pending_requests = b2.pending_requests + 1 }))

abbrev had_memory : Bool → Browser → Browser
had_memory before b = if bool_eq (is_empty b.episodes) before then b else emit has_memory_changed b

module _ (q : Qt) (dates : Dates) where
  abbrev text_at : String → q.Value → String
  text_at name v = q.to_string (q.get (q.to_object v) name)

  abbrev time_at : String → q.Value → String
  time_at name v = format_timestamp dates (text_at name v)

  abbrev pub episode_of : q.Value → Episode
  episode_of v = record {
    id = text_at "id" v;
    title = text_at "title" v;
    start_time = time_at "startTime" v;
    turn_count = q.to_int (q.get (q.to_object v) "turnCount");
  }

  abbrev pub turn_of : q.Value → Turn
  turn_of v = record {
    role = text_at "role" v;
    content = text_at "content" v;
    timestamp = time_at "timestamp" v;
  }

  abbrev pub preference_of : q.Value → Preference
  preference_of v = record {
    key = text_at "key" v;
    value = text_at "value" v;
    updated_at = time_at "updatedAt" v;
  }

  unfoldable pub on_episodes_received : List q.Value → Browser → Browser
  unfolding decrement_pending
  on_episodes_received arr b = decrement_pending (
      had_memory (is_empty b.episodes)
        (emit episodes_changed (record b { episodes = map episode_of arr })))

  unfoldable pub on_turns_received : List q.Value → Browser → Browser
  unfolding decrement_pending
  on_turns_received arr b =
      decrement_pending (
        emit selected_episode_turns_changed (record b { selected_episode_turns = map turn_of arr }))

  unfoldable pub on_preferences_received : List q.Value → Browser → Browser
  unfolding decrement_pending
  on_preferences_received arr b =
      decrement_pending
        (emit preferences_changed (record b { preferences = map preference_of arr }))

-- `QStringLiteral("%1: %2").arg(op, msg)`
unfoldable pub on_fetch_error : String → String → Browser → Browser
unfolding set_error_message decrement_pending
on_fetch_error op msg b =
    decrement_pending (set_error_message (append_text op (append_text ": " msg)) b)

-- The constructor.
abbrev pub new : Browser
new = record {
  episodes = [];
  selected_episode_turns = [];
  preferences = [];
  loading = false;
  error_message = "";
  selected_episode_id = "";
  pending_requests = 0;
  emitted = [];
  in_flight = [];
}
