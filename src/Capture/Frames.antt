-- ===== src/Capture/Frames.antt =====
-- src/audio/pairion_audio_capture.cpp: what is read against the frames that go out.
use pairion_client.Base.{
  concat, ℕ, zero, suc, ◌-◌, ◌≡◌, refl, sym, ◌∙◌, ap, inl, inr, Bool, true, false, List, [], ◌∷◌,
  ◌++◌, arith, ltb, if◌then◌else◌, Bool-cases, length, take, drop, length-take, length-drop,
  take-append-drop, append_assoc, append-nil,
}
use Prim.Native.Nat.{min}
use pairion_client.Capture.{
  CaptureSignal, audio_frame_available, capture_error, Capture, frame_bytes, process_accumulator,
  append_data, on_audio_data_ready,
}

-- The bytes of the frames that were emitted, the signals being newest first.
abbrev pub framed : List CaptureSignal → List ℕ
framed [] = []
framed (audio_frame_available bytes ∷ signals) = framed signals ++ bytes
framed (capture_error reason ∷ signals) = framed signals

abbrev pub AreFrames : List CaptureSignal → Type 0
AreFrames [] = Unit {0}
AreFrames (audio_frame_available bytes ∷ signals) = (length bytes ≡ frame_bytes) × AreFrames signals
AreFrames (capture_error reason ∷ signals) = AreFrames signals

-- Every frame so far is full, less than a frame waits, and the frames and what waits are `bytes`.
abbrev pub HasCut : List ℕ → Capture → Type 0
HasCut bytes c =
    AreFrames c.emitted
    × (ltb (length c.accumulator) frame_bytes ≡ true)
    × (framed c.emitted ++ c.accumulator ≡ bytes)

full_take : (n : ℕ) → ltb n frame_bytes ≡ false → min frame_bytes n ≡ frame_bytes
full_take n h = ground (arith, h)

less_fuel :
    (f n : ℕ) → ltb (suc f) n ≡ false → ltb n frame_bytes ≡ false → ltb f (n - frame_bytes) ≡ false
less_fuel f n h k = ground (arith, h, k)

no_bytes : (n : ℕ) → ltb 0 n ≡ false → ltb n frame_bytes ≡ true
no_bytes n h = ground (arith, h)

process_accumulator-HasCut :
    (fuel : ℕ) (bytes : List ℕ) (c : Capture)
    → ltb fuel (length c.accumulator) ≡ false
    → AreFrames c.emitted
    → framed c.emitted ++ c.accumulator ≡ bytes
    → HasCut bytes (process_accumulator fuel c)
unfolding process_accumulator
process_accumulator-HasCut zero bytes c enough full same =
    (full, no_bytes (length c.accumulator) enough, same)
process_accumulator-HasCut (suc fuel) bytes c enough full same =
    let head = take frame_bytes c.accumulator in
    let tail = drop frame_bytes c.accumulator in
    let c' = record c { accumulator = tail; emitted = audio_frame_available head ∷ c.emitted } in
    elim (Bool-cases (ltb (length c.accumulator) frame_bytes)) [
      | inl short ↦ rw (short, if◌then◌else◌) (full, short, same)
      | inr long ↦
          rw (long, if◌then◌else◌)
            (process_accumulator-HasCut fuel bytes c'
              (ap (ltb fuel) (length-drop frame_bytes c.accumulator)
                ∙ less_fuel fuel (length c.accumulator) enough long)
              (length-take frame_bytes c.accumulator ∙ full_take (length c.accumulator) long, full)
              (append_assoc (framed c.emitted) head tail
                ∙ ap (λ l. framed c.emitted ++ l) (take-append-drop frame_bytes c.accumulator)
                ∙ same))
    ]

-- Chunks of any size, as the device gives them.
abbrev pub read_all : List (List ℕ) → Capture → Capture
read_all [] c = c
read_all (bytes ∷ chunks) c = read_all chunks (on_audio_data_ready bytes c)

process_accumulator-io_device :
    (fuel : ℕ) (c : Capture) → (process_accumulator fuel c).io_device ≡ c.io_device
unfolding process_accumulator
process_accumulator-io_device zero c = refl
process_accumulator-io_device (suc fuel) c =
    elim (Bool-cases (ltb (length c.accumulator) frame_bytes)) [
      | inl short ↦ rw (short, if◌then◌else◌) refl
      | inr long ↦
          rw (long, if◌then◌else◌)
            (process_accumulator-io_device fuel (record c {
              accumulator = drop frame_bytes c.accumulator;
              emitted = audio_frame_available (take frame_bytes c.accumulator) ∷ c.emitted;
            }))
    ]

ready-HasCut :
    (bytes data_read : List ℕ) (c : Capture)
    → c.io_device ≡ true
    → HasCut bytes c
    → HasCut (bytes ++ data_read) (on_audio_data_ready data_read c)
      × ((on_audio_data_ready data_read c).io_device ≡ true)
unfolding on_audio_data_ready
ready-HasCut bytes [] c up (full, short, same) = ((full, short, same ∙ sym (append-nil bytes)), up)
ready-HasCut bytes (x ∷ xs) c up (full, short, same) =
    let more = record c { accumulator = c.accumulator ++ (x ∷ xs) } in
    let size = length (c.accumulator ++ (x ∷ xs)) in
    let cut = process_accumulator-HasCut size (bytes ++ (x ∷ xs)) more (equal size) full (
      sym (append_assoc (framed c.emitted) c.accumulator (x ∷ xs))
      ∙ ap (λ l. l ++ (x ∷ xs)) same) in
    by_device c.io_device up cut (process_accumulator-io_device size more ∙ up)
  where
    equal : (n : ℕ) → ltb n n ≡ false
    equal n = ground arith

    by_device :
        (b : Bool)
        → b ≡ true
        → HasCut
            (bytes ++ (x ∷ xs))
            (process_accumulator (length (c.accumulator ++ (x ∷ xs))) (append_data (x ∷ xs) c))
        → (process_accumulator
            (length (c.accumulator ++ (x ∷ xs)))
            (append_data (x ∷ xs) c)).io_device
          ≡ true
        → let r =
            if b
            then process_accumulator (length (c.accumulator ++ (x ∷ xs))) (append_data (x ∷ xs) c)
            else c in
          HasCut (bytes ++ (x ∷ xs)) r × (r.io_device ≡ true)
    by_device true e cut opened = (cut, opened)
    by_device false e cut opened = absurd (ground (arith, e))

-- If the device is open, what waits is less than a frame and the frames so far are full, then after
-- chunks of any sizes every frame emitted has 640 bytes, less than a frame waits, and the
-- frames in order followed by what waits are the earlier ones followed by the chunks in order.
pub read_all-HasCut :
    (bytes : List ℕ) (chunks : List (List ℕ)) (c : Capture)
    → c.io_device ≡ true
    → HasCut bytes c
    → HasCut (bytes ++ concat chunks) (read_all chunks c)
read_all-HasCut bytes [] c up (full, short, same) = (full, short, same ∙ sym (append-nil bytes))
read_all-HasCut bytes (x ∷ chunks) c up cut =
    let (next, opened) = ready-HasCut bytes x c up cut in
    let (full, short, same) =
      read_all-HasCut (bytes ++ x) chunks (on_audio_data_ready x c) opened next in
    (full, short, same ∙ append_assoc bytes x (concat chunks))
