-- ===== src/Logger/Tests.antt =====
-- The logger at concrete inputs.
use pairion_client.Base.{◌≡◌, refl, String, none, List, [], ◌∷◌, ◌++◌, map}
use pairion_client.Qt.Toy.{toy}
use pairion_client.Logger.{
  LogRecord, qt_info_msg, qt_warning_msg, object_of, level_string, flush, pending_count,
  message_handler, stamp, enqueue, deliver, post_batch, set_session_id, new,
}
use pairion_client.Logger.Batches.{
  LogEvent, stamped, delivered, session_changed, flushed, Held, run, all_records, said, AreFilled,
  run-said,
}

abbrev nothing_held : Held
nothing_held thread = none

-- The first thread is overtaken by the second one, by a change of the session and by a flush.
abbrev overtaken : List LogEvent
overtaken =
    stamped 1 qt_info_msg "t1" "first"
    ∷ session_changed "s"
    ∷ stamped 2 qt_warning_msg "t2" "second"
    ∷ delivered 2
    ∷ flushed
    ∷ delivered 1
    ∷ []

overtaken_records :
    map {B = String × String × String}
      (λ (r : LogRecord). (r.message, r.level, r.session_id))
      (said "" nothing_held overtaken)
    ≡ ("second", "WARN", "s") ∷ ("first", "INFO", "") ∷ []
unfolding level_string
overtaken_records = refl

overtaken_waits : pending_count (run {q = toy} overtaken (nothing_held, new)).1 ≡ 1
unfolding pending_count flush post_batch stamp enqueue deliver set_session_id
overtaken_waits = refl

not_installed : message_handler {q = toy} qt_info_msg "t" "lost" none ≡ none
unfolding message_handler
not_installed = refl

run-said_example :
    (all_records (run {q = toy} overtaken (nothing_held, new)).1
      ≡ all_records {q = toy} new ++ map (object_of toy) (said "" nothing_held overtaken))
    × AreFilled (run {q = toy} overtaken (nothing_held, new)).1.posts
run-said_example = run-said overtaken nothing_held new tt
