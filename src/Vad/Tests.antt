-- ===== src/Vad/Tests.antt =====
-- The voice activity detection at concrete inputs.
use pairion_client.Base.{ℕ, ◌≡◌, true, List, [], ◌∷◌, ◌++◌, ltb, length, replicate}
use pairion_client.Qt.Toy.{toy}
use pairion_client.Vad.{Session, inference_bytes, process_pcm_frame, new}
use pairion_client.Vad.Chunks.{length-process_pcm_frame}
use pairion_client.Vad.Chunks.Cuts.{process_pcm_frame-append}
use pairion_client.Vad.Speech.{feed, IsTold, feed-new-IsTold}

-- A model that is always sure of speech.
abbrev sure : Session toy
sure = record { run = λ samples state. (9 ∷ [], []); sample = λ lo hi. 0 }

abbrev frame : List ℕ
frame = replicate 640 0

length-process_pcm_frame_example :
    ltb (length (process_pcm_frame sure (λ k. 0) frame (new 5 800)).accumulator) inference_bytes
    ≡ true
length-process_pcm_frame_example = length-process_pcm_frame sure (λ k. 0) frame (new 5 800)

process_pcm_frame-append_example :
    process_pcm_frame sure (λ k. 0) frame (process_pcm_frame sure (λ k. 0) frame (new 5 800))
    ≡ process_pcm_frame sure (λ k. 0) (frame ++ frame) (new 5 800)
process_pcm_frame-append_example = process_pcm_frame-append sure 0 frame frame (new 5 800)

feed-new-IsTold_example :
    IsTold (feed sure (((λ k. 0), frame) ∷ ((λ k. 20), frame) ∷ []) (new 5 800))
feed-new-IsTold_example = feed-new-IsTold sure 5 800 (((λ k. 0), frame) ∷ ((λ k. 20), frame) ∷ [])
