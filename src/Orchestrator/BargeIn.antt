-- ===== src/Orchestrator/BargeIn.antt =====
-- What a barge-in does: `executeBargeIn` as a whole.
use pairion_client.Base.{
  concat, ℕ, ◌≡◌, refl, sym, ◌∙◌, ap, subst, inl, inr, ◌⊎◌, String, Bool, true, false, List, [],
  ◌∷◌, Option, none, some, if◌then◌else◌, Bool-cases, length, ◌++◌, ltb, arith,
}
use pairion_client.Qt.{Qt}
use pairion_client.Protocol.Messages.{barge_in, new_stream_start}
use pairion_client.Protocol.Envelope.{serialize_to_string}
use pairion_client.ConnectionState.{set_agent_state}
use pairion_client.Vad
use pairion_client.Playback
use pairion_client.Playback.{Playback, PlaybackSignal, speaking_state_changed}
use pairion_client.Playback.Speaking.{stop_signals}
use pairion_client.Ws.{Effect, send_text, tell, send_message}
use pairion_client.Orchestrator.{
  State, idle, awaiting_wake, streaming, playing_back, state_eq, Orchestrator, Encoder, on_client,
  on_vad, transition_to, start_listening, send, on_tts_playback_ended, react_speaking, react,
  call_playback, on_playback, begin_barge_in, execute_barge_in, on_barge_in_timer_expired,
  send_pre_roll, ending_speech, frame_bytes,
}
use pairion_client.Orchestrator.PreRoll.{with_trace}
use pairion_client.Orchestrator.PreRoll.Frames.{AreFull, note_frames, send_pre_roll-frames}
use pairion_client.Orchestrator.Threshold.{state-transition_to}
use pairion_client.Orchestrator.Threshold.Unchanged.{playback-transition_to, react-playback}

-- Nothing plays or waits to be played: the sink is stopped and has no device, the jitter buffer is
-- empty, and neither timer runs.
abbrev pub IsStopped : Option Playback → Type 0
IsStopped none = Unit {0}
IsStopped (some p) =
    (p.sink_stopped ≡ true)
    × (p.device ≡ false)
    × (p.jitter_buffer ≡ [])
    × (p.drain_timer ≡ false)
    × (p.silence_timer ≡ false)
    × (p.is_speaking ≡ false)

stop-IsStopped : (p : Playback) → IsStopped (some (Playback.stop p).0)
unfolding Playback.stop
stop-IsStopped p = elim (Bool-cases p.is_speaking) [
  | inl e ↦ rw (e, if◌then◌else◌) (refl, refl, refl, refl, refl, refl)
  | inr e ↦ rw (e, if◌then◌else◌) (refl, refl, refl, refl, refl, refl)
]

module _ {q : Qt} where
  -- What the end of a playback leaves alone.
  abbrev pub kept : Orchestrator q → List (Effect q) × (String × (List ℕ × q.Double))
  kept o = (o.client.trace, (o.inbound_stream_id, (o.wake_pre_roll, o.normal_vad_threshold)))

  pub kept-transition_to : (s : State) (o : Orchestrator q) → kept (transition_to s o) ≡ kept o
  unfolding transition_to
  kept-transition_to s o = elim (Bool-cases (state_eq o.state s)) [
    | inl e ↦ rw (e, if◌then◌else◌)
    | inr e ↦ rw (e, if◌then◌else◌)
  ]

  abbrev pub named : Orchestrator q → String × q.Double
  named o = (o.active_stream_id, o.vad.threshold)

  pub named-transition_to : (s : State) (o : Orchestrator q) → named (transition_to s o) ≡ named o
  unfolding transition_to
  named-transition_to s o = elim (Bool-cases (state_eq o.state s)) [
    | inl e ↦ rw (e, if◌then◌else◌)
    | inr e ↦ rw (e, if◌then◌else◌)
  ]

  pub kept-start_listening : (o : Orchestrator q) → kept (start_listening o) ≡ kept o
  unfolding start_listening
  kept-start_listening o = elim (Bool-cases (state_eq o.state idle)) [
    | inl e ↦ rw (e, if◌then◌else◌) (kept-transition_to awaiting_wake o)
    | inr e ↦ rw (e, if◌then◌else◌) refl
  ]

  kept-tts_ended : (o : Orchestrator q) → kept (on_tts_playback_ended o) ≡ kept o
  unfolding on_tts_playback_ended
  kept-tts_ended o = by_state (state_eq o.state playing_back)
    where
      o2 : Orchestrator q
      o2 =
          on_vad (λ v. Vad.reset (Vad.set_threshold o.normal_vad_threshold v))
            (record o { barge_in_timer = false })

      by_state :
          (b : Bool) → kept (if b then start_listening (transition_to idle o2) else o) ≡ kept o
      by_state true = kept-start_listening (transition_to idle o2) ∙ kept-transition_to idle o2
      by_state false = refl

  kept-react :
      (signals : List PlaybackSignal) (o : Orchestrator q)
      → (signals ≡ []) ⊎ (signals ≡ speaking_state_changed "idle" ∷ [])
      → kept (react signals o) ≡ kept o
  unfolding react react_speaking
  kept-react signals o (inl e) = subst (λ l. kept (react l o) ≡ kept o) (sym e) refl
  kept-react signals o (inr e) =
      subst (λ l. kept (react l o) ≡ kept o) (sym e)
        (kept-tts_ended (on_client (tell (set_agent_state "idle")) o))

  kept-stop : (o : Orchestrator q) → kept (on_playback Playback.stop o) ≡ kept o
  unfolding on_playback call_playback
  kept-stop o = by_playback o.playback
    where
      by_playback : (p : Option Playback) → kept (call_playback Playback.stop p o) ≡ kept o
      by_playback none = refl
      by_playback (some p) =
          kept-react (Playback.stop p).1 (record o { playback = some (Playback.stop p).0 })
            (stop_signals p)

  on_playback-IsStopped : (o : Orchestrator q) → IsStopped (on_playback Playback.stop o).playback
  unfolding on_playback call_playback
  on_playback-IsStopped o = by_playback o.playback refl
    where
      by_playback :
          (p : Option Playback)
          → o.playback ≡ p
          → IsStopped (call_playback Playback.stop p o).playback
      by_playback none e = subst IsStopped (sym e) tt
      by_playback (some p) e =
          subst IsStopped
            (sym (
              react-playback (Playback.stop p).1
                (record o { playback = some (Playback.stop p).0 })))
            (stop-IsStopped p)

  -- The messages of a barge-in, newest first, before the pre-roll.
  abbrev pub barge_in_messages : String → String → List (Effect q) → List (Effect q)
  barge_in_messages fresh interrupted trace =
      send_text (serialize_to_string q (new_stream_start fresh))
      ∷ send_text (serialize_to_string q (barge_in interrupted))
      ∷ trace

  trace-begin_barge_in :
      (fresh : String) (o : Orchestrator q)
      → (begin_barge_in fresh o).client.trace
        ≡ barge_in_messages fresh o.inbound_stream_id o.client.trace
  unfolding begin_barge_in send send_message
  trace-begin_barge_in fresh o = ap (λ k. barge_in_messages fresh k.1.0 k.0) (kept-stop o)

  -- The rest of what `executeBargeIn` leaves, before the pre-roll.
  begin_barge_in-eq :
      (fresh : String) (o : Orchestrator q)
      → ((begin_barge_in fresh o).active_stream_id ≡ fresh)
        × ((begin_barge_in fresh o).wake_pre_roll ≡ o.wake_pre_roll)
        × ((begin_barge_in fresh o).vad.threshold ≡ o.normal_vad_threshold)
        × IsStopped (begin_barge_in fresh o).playback
  unfolding begin_barge_in send Vad.set_threshold
  begin_barge_in-eq fresh o = (
    refl,
    ap (λ k. k.1.1.0) (kept-stop o),
    ap (λ k. k.1.1.1) (kept-stop o),
    on_playback-IsStopped o,
  )

  -- The loop over the pre-roll, started after the messages.
  loop-eq :
      (encode : Encoder) (fresh : String) (frames : List (List ℕ)) (rest : List ℕ)
      (o : Orchestrator q)
      → o.wake_pre_roll ≡ concat frames ++ rest
      → AreFull frames
      → ltb (length rest) frame_bytes ≡ true
      → let b = begin_barge_in fresh o in
        send_pre_roll encode (length b.wake_pre_roll) 0 b.wake_pre_roll b
        ≡ with_trace (note_frames encode b.active_stream_id 0 frames b.client.trace) b
  loop-eq encode fresh frames rest o cut full short =
      let b = begin_barge_in fresh o in
      subst
        (λ p.
          send_pre_roll encode (length p) 0 p b
          ≡ with_trace (note_frames encode b.active_stream_id 0 frames b.client.trace) b)
        (sym ((begin_barge_in-eq fresh o).1 ∙ cut))
        (send_pre_roll-frames encode frames rest b full short)

  -- From `o` to `r` by a barge-in: the messages and the packets sent, and the state after them.
  abbrev pub BargedIn : Encoder → String → List (List ℕ) → Orchestrator q → Orchestrator q → Type 0
  BargedIn encode fresh frames o r =
      (r.client.trace
        ≡ note_frames encode fresh 0 frames
            (barge_in_messages fresh o.inbound_stream_id o.client.trace))
      × (r.state ≡ streaming)
      × (r.active_stream_id ≡ fresh)
      × (r.streaming_timeout ≡ true)
      × IsStopped r.playback
      × (r.vad.threshold ≡ o.normal_vad_threshold)

  -- If the barge-in timer fires in PlayingBack, the playback, if there is one, is stopped (no device,
  -- an empty jitter buffer, no timer running, not speaking), the normal VAD
  -- threshold is back, and the pipeline streams under the fresh id with the streaming timeout
  -- running. The client sent, in this order: BargeIn for the inbound stream, AudioStreamStart for
  -- the fresh id, and the packets of the full frames of the pre-roll under that id. The
  -- pre-roll is any number of full frames and an incomplete rest.
  pub barge_in_timer_lem :
      (encode : Encoder) (fresh : String) (frames : List (List ℕ)) (rest : List ℕ)
      (o : Orchestrator q)
      → o.state ≡ playing_back
      → o.wake_pre_roll ≡ concat frames ++ rest
      → AreFull frames
      → ltb (length rest) frame_bytes ≡ true
      → BargedIn encode fresh frames o (on_barge_in_timer_expired encode fresh o)
  unfolding on_barge_in_timer_expired execute_barge_in Vad.reset
  barge_in_timer_lem encode fresh frames rest o playing cut full short = by_state o.state playing
    where
      b : Orchestrator q
      b = begin_barge_in fresh o

      before : Orchestrator q
      before = on_vad Vad.reset (send_pre_roll encode (length b.wake_pre_roll) 0 b.wake_pre_roll b)

      e :
          before
          ≡ on_vad Vad.reset
              (with_trace (note_frames encode b.active_stream_id 0 frames b.client.trace) b)
      e = ap (on_vad Vad.reset) (loop-eq encode fresh frames rest o cut full short)

      done : BargedIn encode fresh frames o (execute_barge_in encode fresh o)
      done =
          let (id, pre, threshold, stopped) = begin_barge_in-eq fresh o in
          (
            ap (λ k. k.0) (kept-transition_to streaming before)
                ∙ ap (λ p. p.client.trace) e
                ∙ ap (λ i. note_frames encode i 0 frames b.client.trace) id
                ∙ ap (note_frames encode fresh 0 frames) (trace-begin_barge_in fresh o),
            state-transition_to streaming before,
            ap (λ k. k.0) (named-transition_to streaming before)
                ∙ ap (λ p. p.active_stream_id) e
                ∙ id,
            refl,
            subst IsStopped (sym (playback-transition_to streaming before ∙ ap (λ p. p.playback) e))
                stopped,
            ap (λ k. k.1) (named-transition_to streaming before)
                ∙ ap (λ p. p.vad.threshold) e
                ∙ threshold,
          )

      by_state :
          (s : State)
          → s ≡ playing_back
          → BargedIn encode fresh frames o
              (if state_eq s playing_back then execute_barge_in encode fresh o else o)
      by_state playing_back h = done
      by_state idle h = absurd (ground (arith, h))
      by_state awaiting_wake h = absurd (ground (arith, h))
      by_state streaming h = absurd (ground (arith, h))
      by_state ending_speech h = absurd (ground (arith, h))
