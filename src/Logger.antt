-- ===== src/Logger.antt =====
-- src/util/logger.cpp: log records, collected and posted to the server in batches. The time of a
-- message is an argument, as a text. The mutex makes each locked block one operation: a message
-- takes the session id in one and is buffered in another.
pub mod Batches
mod Tests
use pairion_client.Base.{
  ℕ, String, Bool, true, false, Option, none, some, List, [], ◌∷◌, ◌++◌, map, str_eq, if◌then◌else◌,
  length,
}
use Prim.Native.String.{◌++◌ as append_text}
use pairion_client.Qt.{Qt}

pub data QtMsgType : Type 0 where
  qt_debug_msg qt_info_msg qt_warning_msg qt_critical_msg qt_fatal_msg : QtMsgType

pub record LogRecord : Type 0 where
  pub timestamp : String
  pub level : String
  pub message : String
  pub session_id : String

pub record Logger (q : Qt) : Type 0 where
  pub installed : Bool
  pub flush_timer : Bool
  pub buffer : List LogRecord
  pub session_id : String
  -- whether a callback is set, and what it was called with, newest last
  pub log_callback : Bool
  pub called : List String
  -- the arrays that were posted, newest last
  pub posts : List (List q.Object)

unfoldable pub level_string : QtMsgType → String
level_string qt_debug_msg = "DEBUG"
level_string qt_info_msg = "INFO"
level_string qt_warning_msg = "WARN"
level_string qt_critical_msg = "ERROR"
level_string qt_fatal_msg = "ERROR"

-- The object of one record, in `flush` and in `pendingRecords`.
abbrev pub object_of : (q : Qt) → LogRecord → q.Object
object_of q rec =
    let o1 = q.insert "timestamp" (q.of_string rec.timestamp) q.empty in
    let o2 = q.insert "level" (q.of_string rec.level) o1 in
    let o3 = q.insert "message" (q.of_string rec.message) o2 in
    if str_eq rec.session_id "" then o3 else q.insert "sessionId" (q.of_string rec.session_id) o3

abbrev formatted : LogRecord → String
formatted rec = append_text "[" (
    append_text rec.timestamp
      (append_text "] " (append_text rec.level (append_text ": " rec.message))))

module _ {q : Qt} where
  unfoldable pub install : Logger q → Logger q
  install l = record l { installed = true; flush_timer = true }

  unfoldable pub set_session_id : String → Logger q → Logger q
  set_session_id session_id l = record l { session_id = session_id }

  unfoldable pub set_log_callback : Logger q → Logger q
  set_log_callback l = record l { log_callback = true }

  post_batch : List LogRecord → Logger q → Logger q
  post_batch [] l = l
  post_batch (rec ∷ batch) l = record l {
    buffer = [];
    posts = l.posts ++ (map (object_of q) (rec ∷ batch) ∷ []);
  }

  unfoldable pub flush : Logger q → Logger q
  unfolding post_batch
  flush l = post_batch l.buffer l

  unfoldable pub pending_records : Logger q → List q.Object
  pending_records l = map (object_of q) l.buffer

  unfoldable pub pending_count : Logger q → ℕ
  pending_count l = length l.buffer

  unfoldable pub enqueue : LogRecord → Logger q → Logger q
  enqueue rec l = record l { buffer = l.buffer ++ (rec ∷ []) }

  -- `messageHandler` up to the end of its first locked block.
  unfoldable pub stamp : QtMsgType → String → String → Logger q → LogRecord
  unfolding level_string
  stamp type timestamp msg l = record {
    timestamp = timestamp;
    level = level_string type;
    message = msg;
    session_id = l.session_id;
  }

  -- The rest of `messageHandler`.
  unfoldable pub deliver : LogRecord → Logger q → Logger q
  unfolding enqueue
  deliver rec l =
      let l' = enqueue rec l in
      if l'.log_callback then record l' { called = l'.called ++ (formatted rec ∷ []) } else l'

  -- Without another thread in between; the argument is `s_instance`.
  unfoldable pub message_handler :
      QtMsgType → String → String → Option (Logger q) → Option (Logger q)
  unfolding stamp deliver
  message_handler type timestamp msg none = none
  message_handler type timestamp msg (some l) = some (deliver (stamp type timestamp msg l) l)

  -- The constructor.
  abbrev pub new : Logger q
  new = record {
    installed = false;
    flush_timer = false;
    buffer = [];
    session_id = "";
    log_callback = false;
    called = [];
    posts = [];
  }
