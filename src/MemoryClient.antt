-- ===== src/MemoryClient.antt =====
-- src/memory/memory_client.cpp: the HTTP requests of the memory browser and what their replies are
-- made of. QJsonDocument is a parameter.
pub mod Replies
mod Tests
use pairion_client.Base.{String, Option, none, some, List, [], ◌∷◌}
use Prim.Native.String.{◌++◌ as append_text}
use pairion_client.Qt.{Qt}
use pairion_client.Memory.{
  Request, fetch_episodes, fetch_preferences, fetch_turns, Browser, Dates, on_episodes_received,
  on_turns_received, on_preferences_received, on_fetch_error,
}

pub data ClientSignal (q : Qt) : Type 0 where
  episodes_received turns_received preferences_received : List q.Value → ClientSignal q
  fetch_error : (operation message : String) → ClientSignal q

-- What QJsonDocument::fromJson makes of a body: an error text, an array, or an object (an empty one
-- stands for every document that is no array).
pub data Document (q : Qt) : Type 0 where
  parse_error : String → Document q
  array : List q.Value → Document q
  object : q.Object → Document q

pub record Documents (q : Qt) : Type 0 where
  pub from_json : q.Text → Document q
  -- QJsonValue::toArray
  pub to_array : q.Value → List q.Value

-- A finished reply: the text of its error, or its body.
pub data Reply (q : Qt) : Type 0 where
  failed : (error_string : String) → Reply q
  body : q.Text → Reply q

abbrev with_user : String → String
with_user url = append_text url "?userId=default-user"

-- The URL that is asked for.
unfoldable pub url_of : String → Request → String
url_of base_url fetch_episodes = with_user (append_text base_url "/memory/episodes")
url_of base_url (fetch_turns episode_id) =
    with_user
      (append_text base_url (append_text "/memory/episodes/" (append_text episode_id "/turns")))
url_of base_url fetch_preferences = with_user (append_text base_url "/memory/preferences")

abbrev pub operation_of : Request → String
operation_of fetch_episodes = "fetchEpisodes"
operation_of (fetch_turns episode_id) = "fetchTurns"
operation_of fetch_preferences = "fetchPreferences"

module _ {q : Qt} (documents : Documents q) where
  -- `onSuccess`
  abbrev pub success : Request → List q.Value → ClientSignal q
  success fetch_episodes arr = episodes_received arr
  success (fetch_turns episode_id) arr = turns_received arr
  success fetch_preferences arr = preferences_received arr

  abbrev of_document : Request → Document q → ClientSignal q
  of_document r (parse_error error) =
      fetch_error (operation_of r) (append_text "JSON parse error: " error)
  of_document r (array arr) = success r arr
  of_document r (object o) = success r (documents.to_array (q.get o "items"))

  -- The slot on `finished` in `get`.
  unfoldable pub on_finished : Request → Reply q → ClientSignal q
  on_finished r (failed error_string) = fetch_error (operation_of r) error_string
  on_finished r (body text) = of_document r (documents.from_json text)

  -- The slots of the browser model on the client's signals.
  unfoldable pub deliver : Dates → ClientSignal q → Browser → Browser
  deliver dates (episodes_received arr) b = on_episodes_received q dates arr b
  deliver dates (turns_received arr) b = on_turns_received q dates arr b
  deliver dates (preferences_received arr) b = on_preferences_received q dates arr b
  deliver dates (fetch_error operation message) b = on_fetch_error operation message b
