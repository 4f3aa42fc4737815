-- ===== src/Orchestrator/PreRoll.antt =====
-- The pre-roll loop of src/pipeline/audio_session_orchestrator.cpp as a change of the trace.
pub mod Frames
use pairion_client.Base.{
  ℕ, zero, suc, ◌+◌, ◌≡◌, refl, String, List, ◌∷◌, Option, none, some, ltb, if◌then◌else◌, length,
  take, drop, Bool-cases, inl, inr,
}
use pairion_client.Qt.{Qt}
use pairion_client.Protocol.Binary.{encode_binary_frame}
use pairion_client.Ws.{Effect, send_binary, send_binary_frame}
use pairion_client.Orchestrator.{Orchestrator, Encoder, frame_bytes, send_packet, send_pre_roll}

module _ {q : Qt} (encode : Encoder) (id : String) where
  abbrev pub note_packet : Option (List ℕ) → List (Effect q) → List (Effect q)
  note_packet none trace = trace
  note_packet (some packet) trace = send_binary (encode_binary_frame q id packet) ∷ trace

  -- The trace after the loop.
  unfoldable pub pre_roll_trace : ℕ → ℕ → List ℕ → List (Effect q) → List (Effect q)
  pre_roll_trace zero k pre_roll trace = trace
  pre_roll_trace (suc fuel) k pre_roll trace =
      let rest =
        pre_roll_trace fuel (k + 1) (drop frame_bytes pre_roll)
          (note_packet (encode k (take frame_bytes pre_roll)) trace) in
      if ltb (length pre_roll) frame_bytes then trace else rest

abbrev pub with_trace : {q : Qt} → List (Effect q) → Orchestrator q → Orchestrator q
with_trace trace o = record o { client = record (o.client) { trace = trace } }

module _ {q : Qt} (encode : Encoder) where
  send_packet-trace :
      (packet : Option (List ℕ)) (o : Orchestrator q)
      → send_packet packet o
        ≡ with_trace (note_packet encode o.active_stream_id packet o.client.trace) o
  unfolding send_packet send_binary_frame
  send_packet-trace none o = refl
  send_packet-trace (some packet) o = refl

  pub send_pre_roll-trace :
      (fuel k : ℕ) (pre_roll : List ℕ) (o : Orchestrator q)
      → send_pre_roll encode fuel k pre_roll o
        ≡ with_trace (pre_roll_trace encode o.active_stream_id fuel k pre_roll o.client.trace) o
  unfolding send_pre_roll pre_roll_trace
  send_pre_roll-trace zero k pre_roll o = refl
  send_pre_roll-trace (suc fuel) k pre_roll o =
      elim (Bool-cases (ltb (length pre_roll) frame_bytes)) [
        | inl short ↦ rw (short, if◌then◌else◌)
        | inr long ↦
            rw (long, send_packet-trace (encode k (take frame_bytes pre_roll)) o)
              (send_pre_roll-trace fuel (k + 1) (drop frame_bytes pre_roll) _)
      ]
