-- ===== src/Logger/Batches.antt =====
-- src/util/logger.cpp: messages of several threads against the batches that go out.
use pairion_client.Base.{
  ℕ, ◌≡◌, refl, sym, ◌∙◌, ap, subst, String, true, inl, inr, Option, none, some, List, [], ◌∷◌,
  ◌++◌, map, append_assoc, append-nil, concat, ◌==◌, if◌then◌else◌, Bool-cases, arith, length, ltb,
}
use pairion_client.Qt.{Qt}
use pairion_client.Logger.{
  QtMsgType, LogRecord, Logger, object_of, level_string, set_session_id, post_batch, flush,
  pending_records, enqueue, stamp, deliver,
}

-- What the threads do to the logger, each on its own lock: a message has its session id taken, a
-- stamped message of that thread is delivered, the session changes, the timer fires.
pub data LogEvent : Type 0 where
  stamped : (thread : ℕ) → QtMsgType → (timestamp msg : String) → LogEvent
  delivered : (thread : ℕ) → LogEvent
  session_changed : (session_id : String) → LogEvent
  flushed : LogEvent

-- The record that each thread holds between its two locked blocks.
abbrev pub Held : Type 0
Held = ℕ → Option LogRecord

abbrev pub hold : ℕ → Option LogRecord → Held → Held
hold thread rec held = λ other. if other == thread then rec else held other

module _ {q : Qt} where
  abbrev deliver_held : Option LogRecord → Logger q → Logger q
  deliver_held none l = l
  deliver_held (some rec) l = deliver rec l

  abbrev pub step : LogEvent → Held × Logger q → Held × Logger q
  step (stamped thread type timestamp msg) (held, l) =
      (hold thread (some (stamp type timestamp msg l)) held, l)
  step (delivered thread) (held, l) = (hold thread none held, deliver_held (held thread) l)
  step (session_changed session_id) (held, l) = (held, set_session_id session_id l)
  step flushed (held, l) = (held, flush l)

  abbrev pub run : List LogEvent → Held × Logger q → Held × Logger q
  run [] s = s
  run (event ∷ events) s = run events (step event s)

  -- What was posted, in order, and what still waits.
  abbrev pub all_records : Logger q → List q.Object
  all_records l = concat l.posts ++ pending_records l

abbrev option_list {ℓ} : {A : Type ℓ} → Option A → List A
option_list none = []
option_list (some a) = a ∷ []

-- The records in the order in which they are delivered, each with the session id that was set when
-- it was stamped: no buffer and no batches.
abbrev pub said : String → Held → List LogEvent → List LogRecord
said session held [] = []
said session held (stamped thread type timestamp msg ∷ events) =
    let rec : LogRecord = record {
      timestamp = timestamp;
      level = level_string type;
      message = msg;
      session_id = session;
    } in
    said session (hold thread (some rec) held) events
said session held (delivered thread ∷ events) =
    option_list (held thread) ++ said session (hold thread none held) events
said session held (session_changed session_id ∷ events) = said session_id held events
said session held (flushed ∷ events) = said session held events

abbrev pub AreFilled {ℓ} : {A : Type ℓ} → List (List A) → Type 0
AreFilled [] = Unit {0}
AreFilled (post ∷ posts) = (ltb 0 (length post) ≡ true) × AreFilled posts

concat-append : {A : Type 0} (xs ys : List (List A)) → concat (xs ++ ys) ≡ concat xs ++ concat ys
concat-append [] ys = refl
concat-append (x ∷ xs) ys =
    ap (λ l. x ++ l) (concat-append xs ys) ∙ sym (append_assoc x (concat xs) (concat ys))

map-append : {A B : Type 0} (f : A → B) (xs ys : List A) → map f (xs ++ ys) ≡ map f xs ++ map f ys
map-append f [] ys = refl
map-append f (x ∷ xs) ys = ap (◌∷◌ (f x)) (map-append f xs ys)

append-AreFilled :
    {A : Type 0} (posts : List (List A)) (a : A) (rest : List A)
    → AreFilled posts
    → AreFilled (posts ++ ((a ∷ rest) ∷ []))
append-AreFilled [] a rest h = (ground arith, tt)
append-AreFilled (post ∷ posts) a rest (e, h) = (e, append-AreFilled posts a rest h)

module _ {q : Qt} where
  flush-all_records :
      (l : Logger q)
      → (all_records (flush l) ≡ all_records l) × ((flush l).session_id ≡ l.session_id)
  unfolding flush post_batch pending_records
  flush-all_records l = by_buffer l.buffer
    where
      by_buffer :
          (buffer : List LogRecord)
          → (all_records (post_batch buffer (record l { buffer = buffer }))
              ≡ concat l.posts ++ map (object_of q) buffer)
            × ((post_batch buffer (record l { buffer = buffer })).session_id ≡ l.session_id)
      by_buffer [] = (refl, refl)
      by_buffer (rec ∷ batch) = (
        append-nil (concat (l.posts ++ (map (object_of q) (rec ∷ batch) ∷ [])))
            ∙ concat-append l.posts (map (object_of q) (rec ∷ batch) ∷ [])
            ∙ ap (λ o. concat l.posts ++ o) (append-nil (map (object_of q) (rec ∷ batch))),
        refl,
      )

  flush-AreFilled : (l : Logger q) → AreFilled l.posts → AreFilled (flush l).posts
  unfolding flush post_batch
  flush-AreFilled l h = by_buffer l.buffer
    where
      by_buffer : (buffer : List LogRecord) → AreFilled (post_batch buffer l).posts
      by_buffer [] = h
      by_buffer (rec ∷ batch) =
          append-AreFilled l.posts (object_of q rec) (map (object_of q) batch) h

  deliver_lem :
      (rec : LogRecord) (l : Logger q)
      → ((deliver rec l).buffer ≡ l.buffer ++ (rec ∷ []))
        × ((deliver rec l).posts ≡ l.posts)
        × ((deliver rec l).session_id ≡ l.session_id)
  unfolding deliver enqueue
  deliver_lem rec l = elim (Bool-cases l.log_callback) [
    | inl called ↦ rw (called, if◌then◌else◌) (refl, refl, refl)
    | inr quiet ↦ rw (quiet, if◌then◌else◌) (refl, refl, refl)
  ]

  deliver-all_records :
      (rec : LogRecord) (l : Logger q)
      → all_records (deliver rec l) ≡ all_records l ++ (object_of q rec ∷ [])
  unfolding pending_records
  deliver-all_records rec l =
      let (buffer, posts, session) = deliver_lem rec l in
      ap (λ p. concat p ++ map (object_of q) (deliver rec l).buffer) posts
      ∙ ap (λ b. concat l.posts ++ map (object_of q) b) buffer
      ∙ ap (λ o. concat l.posts ++ o) (map-append (object_of q) l.buffer (rec ∷ []))
      ∙ sym (append_assoc (concat l.posts) (map (object_of q) l.buffer) (object_of q rec ∷ []))

  -- Over any interleaving of messages of any threads, changes of the session and flushes: what was
  -- posted, batch by batch, followed by the records that still wait, is what there was before
  -- followed by the delivered records in order, each with the session id of the moment at which it
  -- was stamped. If no batch was empty before, none is.
  pub run-said :
      (events : List LogEvent) (held : Held) (l : Logger q)
      → AreFilled l.posts
      → (all_records (run events (held, l)).1
          ≡ all_records l ++ map (object_of q) (said l.session_id held events))
        × AreFilled (run events (held, l)).1.posts
  unfolding stamp set_session_id pending_records
  run-said [] held l h = (sym (append-nil (all_records l)), h)
  run-said (stamped thread type timestamp msg ∷ events) held l h =
      run-said events (hold thread (some (stamp type timestamp msg l)) held) l h
  run-said (delivered thread ∷ events) held l h =
      by_held (held thread) (run-said events (hold thread none held))
    where
      by_held :
          (o : Option LogRecord)
          → ((l' : Logger q)
              → AreFilled l'.posts
              → (all_records (run events (hold thread none held, l')).1
                  ≡ all_records l'
                    ++ map (object_of q) (said l'.session_id (hold thread none held) events))
                × AreFilled (run events (hold thread none held, l')).1.posts)
          → (all_records (run events (hold thread none held, deliver_held o l)).1
              ≡ all_records l
                ++ map
                    (object_of q)
                    (option_list o ++ said l.session_id (hold thread none held) events))
            × AreFilled (run events (hold thread none held, deliver_held o l)).1.posts
      by_held none next = next l h
      by_held (some rec) next =
          let (buffer, posts, session) = deliver_lem rec l in
          let (same, filled) = next (deliver rec l) (subst AreFilled (sym posts) h) in
          (
            same
                ∙ ap
                    (λ s.
                      all_records (deliver rec l)
                      ++ map (object_of q) (said s (hold thread none held) events))
                    session
                ∙ ap
                    (λ o. o ++ map (object_of q) (said l.session_id (hold thread none held) events))
                    (deliver-all_records rec l)
                ∙ append_assoc (all_records l) (object_of q rec ∷ [])
                    (map (object_of q) (said l.session_id (hold thread none held) events)),
            filled,
          )
  run-said (session_changed session_id ∷ events) held l h =
      run-said events held (set_session_id session_id l) h
  run-said (flushed ∷ events) held l h =
      let (same, session) = flush-all_records l in
      let (next, filled) = run-said events held (flush l) (flush-AreFilled l h) in
      (
        next
            ∙ ap (λ o. o ++ map (object_of q) (said (flush l).session_id held events)) same
            ∙ ap (λ s. all_records l ++ map (object_of q) (said s held events)) session,
        filled,
      )
