-- ===== src/MemoryClient/Replies.antt =====
-- src/memory/memory_client.cpp: what each reply does to the browser model.
use pairion_client.Base.{◌≡◌, refl, subst, String, List, ◌∷◌, ◌++◌}
use Prim.Native.String.{◌++◌ as append_text}
use pairion_client.Qt.{Qt}
use pairion_client.Memory.{
  Request, fetch_episodes, fetch_preferences, fetch_turns, Browser, Dates, on_fetch_error,
}
use pairion_client.Memory.Pending.{
  Step, answered, fails, Reach, next, on_received, ledger, counted_off, ledger-on_received,
  ledger-on_fetch_error,
}
use pairion_client.Memory.Shown.{
  shown, show_list, show_error, shown-on_received, shown-on_fetch_error,
}
use pairion_client.MemoryClient.{
  Reply, failed, body, Document, parse_error, array, object, Documents, operation_of, success,
  of_document, on_finished, deliver,
}

module _ {q : Qt} (documents : Documents q) (dates : Dates) where
  -- The request is answered, in whatever way.
  abbrev pub finish : Request → Reply q → Browser → Browser
  finish r reply b = deliver documents dates (on_finished documents r reply) b

  success-Step :
      (b : Browser) (before after : List Request) (r : Request) (arr : List q.Value)
      → b.in_flight ≡ before ++ (r ∷ after)
      → Step q dates b (
          deliver documents dates
            (success documents r arr)
            (record b { in_flight = before ++ after }))
  unfolding deliver
  success-Step b before after fetch_episodes arr e = answered b before after fetch_episodes arr e
  success-Step b before after fetch_preferences arr e =
      answered b before after fetch_preferences arr e
  success-Step b before after (fetch_turns episode_id) arr e =
      answered b before after (fetch_turns episode_id) arr e

  document-Step :
      (b : Browser) (before after : List Request) (r : Request) (doc : Document q)
      → b.in_flight ≡ before ++ (r ∷ after)
      → Step q dates b (
          deliver documents dates
            (of_document documents r doc)
            (record b { in_flight = before ++ after }))
  unfolding deliver
  document-Step b before after r (parse_error error) e = fails b before after r (operation_of r) _ e
  document-Step b before after r (array arr) e = success-Step b before after r arr e
  document-Step b before after r (object o) e = success-Step b before after r _ e

  finish-Reach :
      (b c : Browser) (before after : List Request) (r : Request) (reply : Reply q)
      → c.in_flight ≡ before ++ (r ∷ after)
      → Reach q dates b c
      → Reach q dates b (finish r reply (record c { in_flight = before ++ after }))
  unfolding on_finished deliver
  finish-Reach b c before after r (failed error_string) e reached =
      next reached (fails c before after r (operation_of r) error_string e)
  finish-Reach b c before after r (body text) e reached =
      next reached (document-Step c before after r (documents.from_json text) e)

  abbrev pub show_document : Request → Document q → Browser → Browser
  show_document r (parse_error error) b =
      show_error
        (append_text (operation_of r) (append_text ": " (append_text "JSON parse error: " error))) b
  show_document r (array arr) b = show_list q dates r arr b
  show_document r (object o) b = show_list q dates r (documents.to_array (q.get o "items")) b

  -- What a reply is meant to show.
  abbrev pub show_reply : Request → Reply q → Browser → Browser
  show_reply r (failed error_string) b =
      show_error (append_text (operation_of r) (append_text ": " error_string)) b
  show_reply r (body text) b = show_document r (documents.from_json text) b

  on_received-success :
      (r : Request) (arr : List q.Value) (b : Browser)
      → on_received q dates r arr b ≡ deliver documents dates (success documents r arr) b
  unfolding deliver
  on_received-success fetch_episodes arr b = refl
  on_received-success (fetch_turns episode_id) arr b = refl
  on_received-success fetch_preferences arr b = refl

  -- What a reply is meant to do to a browser: what is shown, and that it is counted off.
  abbrev pub IsAnswered : Browser → Browser → Browser → Type 0
  IsAnswered meant b d = (shown d ≡ shown meant) × (ledger d ≡ counted_off (ledger b))

  success-IsAnswered :
      (r : Request) (arr : List q.Value) (b : Browser)
      → IsAnswered
          (show_list q dates r arr b)
          b
          (deliver documents dates (success documents r arr) b)
  success-IsAnswered r arr b =
      subst (IsAnswered (show_list q dates r arr b) b) (on_received-success r arr b)
        (shown-on_received q dates r arr b, ledger-on_received q dates r arr b)

  error-IsAnswered :
      (op message : String) (b : Browser)
      → IsAnswered
          (show_error (append_text op (append_text ": " message)) b)
          b
          (on_fetch_error op message b)
  error-IsAnswered op message b =
      (shown-on_fetch_error op message b, ledger-on_fetch_error op message b)

  document-IsAnswered :
      (r : Request) (doc : Document q) (b : Browser)
      → IsAnswered
          (show_document r doc b)
          b
          (deliver documents dates (of_document documents r doc) b)
  unfolding deliver
  document-IsAnswered r (parse_error error) b =
      error-IsAnswered (operation_of r) (append_text "JSON parse error: " error) b
  document-IsAnswered r (array arr) b = success-IsAnswered r arr b
  document-IsAnswered r (object o) b = success-IsAnswered r _ b

  finish-IsAnswered :
      (r : Request) (reply : Reply q) (b : Browser)
      → IsAnswered (show_reply r reply b) b (finish r reply b)
  unfolding on_finished deliver
  finish-IsAnswered r (failed error_string) b = error-IsAnswered (operation_of r) error_string b
  finish-IsAnswered r (body text) b = document-IsAnswered r (documents.from_json text) b

  -- The reply to a request in flight, whatever it is. After an error of the network, or a body that
  -- does not parse, the error message shown is the operation with that error, and all else that is
  -- shown is as before. After an array, or an object, the list that the request asks for shows that
  -- array, or the one under "items", and all else is as before: also the selected episode, which
  -- need not be the one whose turns are shown from then on. Each reply is counted off once, loading
  -- ends with the last one counted, and the state is reached by the steps of the browser model.
  pub finish_lem :
      (b c : Browser) (before after : List Request) (r : Request) (reply : Reply q)
      → c.in_flight ≡ before ++ (r ∷ after)
      → Reach q dates b c
      → let taken = record c { in_flight = before ++ after } in
        (shown (finish r reply taken) ≡ shown (show_reply r reply taken))
        × (ledger (finish r reply taken) ≡ counted_off (ledger taken))
        × Reach q dates b (finish r reply taken)
  finish_lem b c before after r reply e reached =
      let (same, counted) = finish-IsAnswered r reply (record c { in_flight = before ++ after }) in
      (same, counted, finish-Reach b c before after r reply e reached)
