-- ===== src/Capture/Tests.antt =====
-- The capture at concrete inputs.
use pairion_client.Base.{ℕ, refl, true, List, [], ◌∷◌}
use pairion_client.Capture.{Capture}
use pairion_client.Capture.Frames.{HasCut, read_all, read_all-HasCut}

abbrev microphone : Capture
microphone = record {
  audio_source = true;
  io_device = true;
  accumulator = [];
  owns_source = true;
  running = true;
  configured_device_id = "";
  configured_sample_rate = 16000;
  emitted = [];
}

abbrev chunks : List (List ℕ)
chunks = (1 ∷ 2 ∷ []) ∷ [] ∷ (3 ∷ []) ∷ []

read_all-HasCut_example : HasCut (1 ∷ 2 ∷ 3 ∷ []) (read_all chunks microphone)
read_all-HasCut_example = read_all-HasCut [] chunks microphone refl (tt, refl, refl)
