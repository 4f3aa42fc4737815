-- ===== src/Orchestrator/Streams.antt =====
-- The server's view of the uploads of src/pipeline/audio_session_orchestrator.cpp: which stream is
-- open, by the messages that the client has sent on this connection, and whose the frames are.
pub mod Upload
pub mod Speech
pub mod Steps
use pairion_client.Base.{
  ℕ, zero, suc, ◌+◌, ◌≡◌, ◌≢◌, refl, sym, ◌∙◌, ap, inl, inr, String, Bool, true, false, List, [],
  ◌∷◌, Option, none, some, arith, ltb, if◌then◌else◌, Bool-cases, length, take, drop,
}
use pairion_client.Qt.{Qt, JsonLaws}
use pairion_client.Protocol.Messages.{
  OutboundMessage, audio_stream_start_in, audio_stream_end_in, new_stream_start,
}
use pairion_client.Protocol.Binary.{encode_binary_frame}
use pairion_client.Protocol.Envelope.{serialize_to_string}
use pairion_client.Protocol.Envelope.Server.{read_text}
use pairion_client.Protocol.Envelope.Outbound.{read_text-serialize_to_string, IsSendable}
use pairion_client.Ws.{Effect, send_text, send_binary, disconnected_signal, send_message}
use pairion_client.Orchestrator.{
  State, idle, awaiting_wake, streaming, state_eq, Orchestrator, Encoder, frame_bytes,
  transition_to, start_listening, end_stream, send, send_end, send_pre_roll,
}
use pairion_client.Orchestrator.PreRoll.{note_packet, pre_roll_trace, send_pre_roll-trace}
use pairion_client.Orchestrator.Invariant.{state_eq-eq}

-- A frame carries the prefix of the stream that is open.
pub record BelongsTo (q : Qt) (stream : Option String) (bytes : List ℕ) : Type 0 where
  pub id : String
  pub payload : List ℕ
  pub is_open : stream ≡ some id
  pub framed : bytes ≡ encode_binary_frame q id payload

module _ {q : Qt} where
  -- A message opens or closes a stream, or leaves the open one.
  abbrev pub heard : Option (OutboundMessage q) → Option String → Option String
  heard (some (audio_stream_start_in id codec rate)) stream = some id
  heard (some (audio_stream_end_in id reason)) stream = none
  heard _ stream = stream

  abbrev pub after : Effect q → Option String → Option String
  after (send_text t) stream = heard (read_text q t) stream
  after disconnected_signal stream = none
  after _ stream = stream

  -- The stream that is open at the server after a trace, newest effect first.
  abbrev pub open_stream : List (Effect q) → Option String
  open_stream [] = none
  open_stream (e ∷ trace) = after e (open_stream trace)

  -- Every frame of a trace belonged to the stream that was open when it went out.
  abbrev pub IsAttributed : List (Effect q) → Type 0
  IsAttributed [] = Unit {0}
  IsAttributed (send_binary bytes ∷ trace) =
      BelongsTo q (open_stream trace) bytes × IsAttributed trace
  IsAttributed (_ ∷ trace) = IsAttributed trace

  -- While streaming, the active stream is open.
  pub record Follows (s : State) (id : String) (trace : List (Effect q)) : Type 0 where
    pub opened : s ≡ streaming → open_stream trace ≡ some id
    pub attributed : IsAttributed trace

  abbrev pub Inv : Orchestrator q → Type 0
  Inv o = Follows o.state o.active_stream_id o.client.trace

  pub outside : (o : Orchestrator q) → o.state ≢ streaming → IsAttributed o.client.trace → Inv o
  outside o h a = record { opened = λ e. absurd (h e); attributed = a }

  -- Both branches keep it.
  pub branch-Inv : (b : Bool) (x y : Orchestrator q) → Inv x → Inv y → Inv (if b then x else y)
  branch-Inv true x y v w = v
  branch-Inv false x y v w = w

  -- A transition to a state other than Streaming.
  pub transition-Inv :
      (s : State) (o : Orchestrator q)
      → s ≢ streaming
      → IsAttributed o.client.trace
      → Inv (transition_to s o)
  unfolding transition_to
  transition-Inv s o h a = elim (Bool-cases (state_eq o.state s)) [
    | inl e ↦ rw (e, if◌then◌else◌) (outside o (λ f. h (sym (state_eq-eq o.state s e) ∙ f)) a)
    | inr e ↦ rw (e, if◌then◌else◌) (record { opened = λ f. absurd (h f); attributed = a })
  ]

  -- A transition to Streaming, with the timeout started.
  pub streaming-Inv :
      (o : Orchestrator q)
      → open_stream o.client.trace ≡ some o.active_stream_id
      → IsAttributed o.client.trace
      → Inv (record (transition_to streaming o) { streaming_timeout = true })
  unfolding transition_to
  streaming-Inv o h a = elim (Bool-cases (state_eq o.state streaming)) [
    | inl e ↦ rw (e, if◌then◌else◌) (record { opened = λ f. h; attributed = a })
    | inr e ↦ rw (e, if◌then◌else◌) (record { opened = λ f. h; attributed = a })
  ]

  pub start_listening-Inv : (o : Orchestrator q) → Inv o → Inv (start_listening o)
  unfolding start_listening
  start_listening-Inv o v = elim (Bool-cases (state_eq o.state idle)) [
    | inl e ↦ rw (e, if◌then◌else◌) (transition-Inv awaiting_wake o (λ h. cc) v.attributed)
    | inr e ↦ rw (e, if◌then◌else◌) v
  ]

  pub listen_again-Inv :
      (o : Orchestrator q)
      → IsAttributed o.client.trace
      → Inv (start_listening (transition_to idle o))
  listen_again-Inv o a =
      start_listening-Inv (transition_to idle o) (transition-Inv idle o (λ h. cc) a)

  pub end_stream-Inv : (reason : String) (o : Orchestrator q) → Inv o → Inv (end_stream reason o)
  unfolding end_stream send_end send send_message
  end_stream-Inv reason o v = listen_again-Inv _ v.attributed

  -- The packets of the pre-roll belong to the open stream and leave it open.
  pub pre_roll_trace-IsAttributed :
      (encode : Encoder) (id : String) (fuel k : ℕ) (pre_roll : List ℕ) (trace : List (Effect q))
      → open_stream trace ≡ some id
      → IsAttributed trace
      → (open_stream (pre_roll_trace encode id fuel k pre_roll trace) ≡ some id)
        × IsAttributed (pre_roll_trace encode id fuel k pre_roll trace)
  unfolding pre_roll_trace
  pre_roll_trace-IsAttributed encode id zero k pre_roll trace h a = (h, a)
  pre_roll_trace-IsAttributed encode id (suc fuel) k pre_roll trace h a =
      let one = packet_lem (encode k (take frame_bytes pre_roll)) in
      elim (Bool-cases (ltb (length pre_roll) frame_bytes)) [
        | inl short ↦ rw (short, if◌then◌else◌) (h, a)
        | inr long ↦
            rw (long, if◌then◌else◌)
              (pre_roll_trace-IsAttributed encode id fuel (k + 1) (drop frame_bytes pre_roll) _
                one.0 one.1)
      ]
    where
      packet_lem :
          (packet : Option (List ℕ))
          → (open_stream (note_packet encode id packet trace) ≡ some id)
            × IsAttributed (note_packet encode id packet trace)
      packet_lem none = (h, a)
      packet_lem (some p) = (h, (record { id = id; payload = p; is_open = h; framed = refl }, a))

  -- The server hears the message that is sent.
  pub heard-sent :
      JsonLaws q
      → (m : OutboundMessage q) (stream : Option String) → IsSendable m
      → heard (read_text q (serialize_to_string q m)) stream ≡ heard (some m) stream
  heard-sent laws m stream h = ap (λ r. heard r stream) (read_text-serialize_to_string laws m h)

  -- After its AudioStreamStart, a stream is open.
  pub heard-new_stream_start :
      JsonLaws q
      → (fresh : String) (stream : Option String)
      → heard (read_text q (serialize_to_string q (new_stream_start fresh))) stream ≡ some fresh
  heard-new_stream_start laws fresh stream =
      heard-sent laws (new_stream_start fresh) stream (omega arith)

  -- The pre-roll goes out under the open stream.
  pub pre_roll_lem :
      (encode : Encoder) (pre_roll : List ℕ) (o : Orchestrator q)
      → open_stream o.client.trace ≡ some o.active_stream_id
      → IsAttributed o.client.trace
      → let o' = send_pre_roll encode (length pre_roll) 0 pre_roll o in
        (open_stream o'.client.trace ≡ some o'.active_stream_id) × IsAttributed o'.client.trace
  pre_roll_lem encode pre_roll o h a =
      rw (send_pre_roll-trace encode (length pre_roll) 0 pre_roll o) (
        pre_roll_trace-IsAttributed encode o.active_stream_id (length pre_roll) 0 pre_roll
          o.client.trace h a)
