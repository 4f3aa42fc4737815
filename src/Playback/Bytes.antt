-- ===== src/Playback/Bytes.antt =====
-- The bytes of the speech: decoded, in the jitter buffer, and taken by the device.
use pairion_client.Base.{
  concat, ℕ, ◌≡◌, refl, sym, ◌∙◌, ap, inl, inr, true, false, List, [], ◌∷◌, ◌++◌, ltb, ◌==◌, length,
  take, drop, take-append-drop, append_assoc, append-nil, if◌then◌else◌, Bool-cases,
}
use pairion_client.Playback.{
  Playback, Device, Decoded, pcm, failed, is_empty, flush, flushed, on_drain_tick,
  decode_opus_frame, play_decoded, handle_pcm_frame, handle_opus_frame,
}

concat-append : (xs ys : List (List ℕ)) → concat (xs ++ ys) ≡ concat xs ++ concat ys
concat-append [] ys = refl
concat-append (x ∷ xs) ys =
    ap (λ l. x ++ l) (concat-append xs ys) ∙ sym (append_assoc x (concat xs) (concat ys))

-- What the device has taken and what still waits for it.
abbrev pub accepted : Playback → List ℕ
accepted p = p.written ++ concat p.jitter_buffer

flush-concat :
    (write : Device) (written : List ℕ) (buffer : List (List ℕ))
    → (flush write written buffer).0 ++ concat (flush write written buffer).1
      ≡ written ++ concat buffer
unfolding flush
flush-concat write written [] = refl
flush-concat write written (head ∷ rest) =
    let n = write written head in
    elim (Bool-cases (write written head == 0)) [
      | inl none_taken ↦ rw (none_taken, if◌then◌else◌)
      | inr some_taken ↦ elim (Bool-cases (ltb (write written head) (length head))) [
        | inl part ↦
            rw (some_taken, part, if◌then◌else◌)
              (append_assoc written (take n head) (drop n head ++ concat rest)
                ∙ ap (λ l. written ++ l)
                    (sym (append_assoc (take n head) (drop n head) (concat rest))
                      ∙ ap (λ l. l ++ concat rest) (take-append-drop n head)))
        | inr whole ↦
            rw (some_taken, whole, if◌then◌else◌)
              (flush-concat write (written ++ head) rest ∙ append_assoc written head (concat rest))
      ]
    ]

flushed-accepted : (write : Device) (p : Playback) → accepted (flushed write p) ≡ accepted p
flushed-accepted write p = elim (Bool-cases p.device) [
  | inl e ↦ rw (e, if◌then◌else◌) (flush-concat write p.written p.jitter_buffer)
  | inr e ↦ rw (e, if◌then◌else◌)
]

-- The bytes that a packet adds to the speech.
abbrev pub decoded_bytes : Decoded → List ℕ
decoded_bytes (pcm bytes) = bytes
decoded_bytes (failed message) = []

pcm-accepted :
    (write : Device) (bytes : List ℕ) (p : Playback)
    → accepted (handle_pcm_frame write bytes p).0 ≡ accepted p ++ bytes
unfolding handle_pcm_frame
pcm-accepted write bytes p =
    flushed-accepted write (record p {
      jitter_buffer = p.jitter_buffer ++ (bytes ∷ []);
      is_speaking = true;
      silence_timer = true;
    })
    ∙ ap (λ l. p.written ++ l) (concat-append p.jitter_buffer (bytes ∷ []))
    ∙ ap (λ l. p.written ++ (concat p.jitter_buffer ++ l)) (append-nil bytes)
    ∙ sym (append_assoc p.written (concat p.jitter_buffer) bytes)

opus-accepted :
    (opus_decode : List ℕ → Decoded) (write : Device) (frame : List ℕ) (p : Playback)
    → accepted (handle_opus_frame opus_decode write frame p).0
      ≡ accepted p ++ decoded_bytes (decode_opus_frame opus_decode frame)
unfolding handle_opus_frame
opus-accepted opus_decode write frame p = play (decode_opus_frame opus_decode frame)
  where
    play : (d : Decoded) → accepted (play_decoded write d p).0 ≡ accepted p ++ decoded_bytes d
    play (pcm bytes) = pcm-accepted write bytes p
    play (failed message) = sym (append-nil (accepted p))

drain-accepted : (write : Device) (p : Playback) → accepted (on_drain_tick write p) ≡ accepted p
unfolding on_drain_tick
drain-accepted write p =
    same (flushed write p) (flushed write p).jitter_buffer ∙ flushed-accepted write p
  where
    same :
        (r : Playback) (buffer : List (List ℕ))
        → accepted (if is_empty buffer then record r { drain_timer = false } else r) ≡ accepted r
    same r [] = refl
    same r (x ∷ xs) = refl

-- A packet that arrives, with the decoder as it is by then, or a tick of the drain timer.
pub data Turn : Type 0 where
  arrives : (List ℕ → Decoded) → List ℕ → Turn
  tick : Turn

abbrev pub play : Device → List Turn → Playback → Playback
play write [] p = p
play write (arrives opus_decode frame ∷ turns) p =
    play write turns (handle_opus_frame opus_decode write frame p).0
play write (tick ∷ turns) p = play write turns (on_drain_tick write p)

abbrev pub speech : List Turn → List ℕ
speech [] = []
speech (arrives opus_decode frame ∷ turns) =
    decoded_bytes (decode_opus_frame opus_decode frame) ++ speech turns
speech (tick ∷ turns) = speech turns

-- For every device, however little of each chunk it takes, and every decoder, whatever state it
-- is in: after any packets and
-- ticks of the drain timer in any order, what the device has taken followed by what waits in the
-- jitter buffer is what was there before followed by the samples of the packets in order. No
-- byte is lost, repeated or moved; a packet that the decoder refuses adds none.
pub play-accepted :
    (write : Device) (turns : List Turn) (p : Playback)
    → accepted (play write turns p) ≡ accepted p ++ speech turns
play-accepted write [] p = sym (append-nil (accepted p))
play-accepted write (arrives opus_decode frame ∷ turns) p =
    play-accepted write turns (handle_opus_frame opus_decode write frame p).0
    ∙ ap (λ l. l ++ speech turns) (opus-accepted opus_decode write frame p)
    ∙ append_assoc (accepted p) _ _
play-accepted write (tick ∷ turns) p =
    play-accepted write turns (on_drain_tick write p)
    ∙ ap (λ l. l ++ speech turns) (drain-accepted write p)
