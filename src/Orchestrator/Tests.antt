-- ===== src/Orchestrator/Tests.antt =====
-- The theorems on the voice pipeline at concrete inputs.
use pairion_client.Base.{
  not, str_eq, ◌&&◌, ◌⊎◌, false, ◌≢◌, concat, ℕ, ◌≡◌, refl, true, List, [], ◌∷◌, some, none, length,
  replicate, ◌++◌,
}
use pairion_client.Qt.Toy.{toy, toy_json}
use pairion_client.ConnectionState
use pairion_client.Ws
use pairion_client.Ws.{Client}
use pairion_client.Vad
use pairion_client.Vad.{Vad}
use pairion_client.Playback
use pairion_client.Playback.{Playback, Decoded, pcm}
use pairion_client.Orchestrator.{
  playing_back, state_eq, state_name, streaming, ending_speech, idle, awaiting_wake, Orchestrator,
  Encoder, start_listening, on_wake_word_detected, on_opus_frame_encoded, on_speech_ended, new,
  barge_in_vad_threshold, on_ws_reconnected, on_tts_playback_ended, on_tts_playback_started,
  on_inbound_audio,
}
use pairion_client.Protocol.Binary.{decode_binary_frame}
use pairion_client.Protocol.Envelope.{serialize, serialize_to_string}
use pairion_client.Protocol.Envelope.Server.{read_text, read_outbound}
use pairion_client.Ws.{send_message, send_binary_frame}
use pairion_client.Orchestrator.{on_barge_in_timer_expired, send_pre_roll}
use pairion_client.Orchestrator.PreRoll.{with_trace}
use pairion_client.Orchestrator.PreRoll.Frames.{note_frames, send_pre_roll-frames}
use pairion_client.Orchestrator.BargeIn.{BargedIn, barge_in_timer_lem}
use pairion_client.Orchestrator.Talk.{talk_lem, send_all, note_all, opening, closing}
use pairion_client.Orchestrator.Events.{
  here, next, listen, wake, packet, speech_ends, audio_in, audio_arrives, connection_lost,
}
use pairion_client.Orchestrator.Invariant.{voice}
use pairion_client.Orchestrator.Invariant.Steps.{Reach-new-Holds}
use pairion_client.Orchestrator.Streams.{IsAttributed, open_stream}
use pairion_client.Orchestrator.Streams.Steps.{Reach-new-IsAttributed}
use pairion_client.Orchestrator.Threshold.{is_speaking}
use pairion_client.Orchestrator.Threshold.Steps.{
  CalmReach, CalmReach-new-IsTuned, lost_stays_raised,
}

abbrev client : Client toy
client = record (Ws.new "ws://host" "device" "token" (ConnectionState.new toy)) {
  socket_connected = true;
}

abbrev vad : Vad toy
vad = Vad.new 5 800

abbrev pipeline : Orchestrator toy
pipeline = new client vad (some (Playback.new true))

abbrev no_packets : Encoder
no_packets k frame = none

abbrev plain : List ℕ → Decoded
plain frame = pcm frame

abbrev streaming_one : Orchestrator toy
streaming_one =
    on_wake_word_detected no_packets "id-1" "now" 9 (0 ∷ 0 ∷ []) (start_listening pipeline)

Reach-new-Holds_example :
    let o = on_speech_ended streaming_one in
    (o.streaming_timeout ≡ state_eq o.state streaming)
    × (o.state ≢ ending_speech)
    × ((state_eq o.state streaming && str_eq o.active_stream_id "") ≡ false)
    × ((voice o ≡ state_name o.state) ⊎ ((o.state ≡ idle) × (voice o ≡ "")))
Reach-new-Holds_example = Reach-new-Holds client vad (some (Playback.new true)) _ refl (
    next
      (next (next here (listen pipeline))
        (wake (start_listening pipeline) no_packets "id-1" "now" 9 (0 ∷ 0 ∷ []) (λ e. cc)))
      (speech_ends streaming_one))

abbrev frame : List ℕ
frame = 1 ∷ 2 ∷ 3 ∷ 4 ∷ 5 ∷ 6 ∷ []

abbrev speaking : Orchestrator toy
speaking = audio_arrives plain (λ written chunk. 0) frame (start_listening pipeline)

CalmReach-new-IsTuned_example :
    ((speaking.state ≡ playing_back) ⊎ (speaking.vad.threshold ≡ vad.threshold))
    × (speaking.normal_vad_threshold ≡ vad.threshold)
    × ((state_eq speaking.state playing_back && not (is_speaking speaking.playback)) ≡ false)
CalmReach-new-IsTuned_example = CalmReach-new-IsTuned client vad (some (Playback.new true)) _ (
    CalmReach.next (CalmReach.next CalmReach.here (listen pipeline) tt)
      (audio_in (start_listening pipeline) plain (λ written chunk. 0) frame) tt)

lost_stays_raised_example :
    let listening = on_ws_reconnected (connection_lost speaking) in
    let after_speech = on_tts_playback_ended (on_tts_playback_started listening) in
    (listening.state ≡ awaiting_wake)
    × (listening.vad.threshold ≡ barge_in_vad_threshold toy)
    × (after_speech.state ≡ awaiting_wake)
    × (after_speech.vad.threshold ≡ barge_in_vad_threshold toy)
unfolding audio_arrives on_inbound_audio decode_binary_frame Playback.handle_opus_frame
    Vad.set_threshold
lost_stays_raised_example = lost_stays_raised speaking refl refl

-- Packets that are their frames, and a pre-roll of one full frame and three bytes.
abbrev as_is : Encoder
as_is k bytes = some bytes

abbrev frames : List (List ℕ)
frames = replicate 640 7 ∷ []

abbrev rest : List ℕ
rest = 1 ∷ 2 ∷ 3 ∷ []

abbrev listening : Orchestrator toy
listening = start_listening pipeline

send_pre_roll-frames_example :
    send_pre_roll as_is (length (concat frames ++ rest)) 0 (concat frames ++ rest) listening
    ≡ with_trace (note_frames as_is "" 0 frames []) listening
unfolding start_listening
send_pre_roll-frames_example = send_pre_roll-frames as_is frames rest listening (refl, tt) refl

abbrev interrupted : Orchestrator toy
interrupted = record speaking { wake_pre_roll = concat frames ++ rest }

barge_in_timer_lem_example :
    BargedIn as_is "id-2" frames interrupted (on_barge_in_timer_expired as_is "id-2" interrupted)
unfolding audio_arrives on_inbound_audio decode_binary_frame Playback.handle_opus_frame
barge_in_timer_lem_example =
    barge_in_timer_lem as_is "id-2" frames rest interrupted refl refl (refl, tt) refl

talk_lem_example :
    let woken = on_wake_word_detected as_is "id-1" "now" 9 (concat frames ++ rest) listening in
    let r = on_speech_ended (send_all ((4 ∷ []) ∷ (5 ∷ []) ∷ []) woken) in
    (r.state ≡ awaiting_wake)
    × (r.client.trace
        ≡ closing "id-1" "normal" (
            note_all "id-1"
              ((4 ∷ []) ∷ (5 ∷ []) ∷ [])
              (note_frames as_is "id-1" 0 frames (opening "id-1" "now" 9 []))))
unfolding start_listening
talk_lem_example =
    talk_lem as_is "id-1" "now" 9 frames ((4 ∷ []) ∷ (5 ∷ []) ∷ []) rest listening refl refl
      (refl, tt) refl

abbrev packet_sent : Orchestrator toy
packet_sent = on_opus_frame_encoded (4 ∷ []) streaming_one

Reach-new-IsAttributed_example :
    ((packet_sent.state ≢ streaming)
      ⊎ (open_stream packet_sent.client.trace ≡ some packet_sent.active_stream_id))
    × IsAttributed packet_sent.client.trace
Reach-new-IsAttributed_example =
    Reach-new-IsAttributed toy_json client vad (some (Playback.new true)) _ refl (
      next
        (next (next here (listen pipeline))
          (wake (start_listening pipeline) no_packets "id-1" "now" 9 (0 ∷ 0 ∷ []) (λ e. cc)))
        (packet streaming_one (4 ∷ [])))

-- The server has the stream open while it is spoken on, and none after its end.
opened_then_closed :
    (open_stream packet_sent.client.trace ≡ some "id-1")
    × (open_stream (on_speech_ended packet_sent).client.trace ≡ none)
unfolding start_listening on_wake_word_detected on_opus_frame_encoded on_speech_ended send_message
    send_binary_frame serialize_to_string serialize read_text read_outbound
opened_then_closed = (refl, refl)
