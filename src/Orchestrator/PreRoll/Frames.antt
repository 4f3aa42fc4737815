-- ===== src/Orchestrator/PreRoll/Frames.antt =====
-- The pre-roll loop against the full frames of its buffer.
use pairion_client.Base.{
  concat, ℕ, zero, suc, ◌+◌, ◌≡◌, refl, sym, ◌∙◌, ap, subst, String, true, false, List, [], ◌∷◌,
  ◌++◌, arith, ltb, if◌then◌else◌, length, take, drop, length-append, append_assoc,
  take-append_exact, drop-append_exact,
}
use pairion_client.Qt.{Qt}
use pairion_client.Ws.{Effect}
use pairion_client.Orchestrator.{Orchestrator, Encoder, frame_bytes, send_pre_roll}
use pairion_client.Orchestrator.PreRoll.{
  note_packet, pre_roll_trace, with_trace, send_pre_roll-trace,
}

abbrev pub AreFull : List (List ℕ) → Type 0
AreFull [] = Unit {0}
AreFull (x ∷ xs) = (length x ≡ frame_bytes) × AreFull xs

-- The packets of the frames from number `k` on, after a trace.
abbrev pub note_frames :
    {q : Qt} → Encoder → String → ℕ → List (List ℕ) → List (Effect q) → List (Effect q)
note_frames encode id k [] trace = trace
note_frames encode id k (x ∷ xs) trace =
    note_frames encode id (k + 1) xs (note_packet encode id (encode k x) trace)

take_frame : (x ys : List ℕ) → length x ≡ frame_bytes → take frame_bytes (x ++ ys) ≡ x
take_frame x ys h = subst (λ n. take n (x ++ ys) ≡ x) h (take-append_exact x ys)

drop_frame : (x ys : List ℕ) → length x ≡ frame_bytes → drop frame_bytes (x ++ ys) ≡ ys
drop_frame x ys h = subst (λ n. drop n (x ++ ys) ≡ ys) h (drop-append_exact x ys)

long_buffer : (n m : ℕ) → n ≡ frame_bytes → ltb (n + m) frame_bytes ≡ false
long_buffer n m h = ground (arith, h)

fuel_left : (f n m : ℕ) → n ≡ frame_bytes → ltb (suc f) (n + m) ≡ false → ltb f m ≡ false
fuel_left f n m h k = ground (arith, h, k)

no_fuel : (n m : ℕ) → n ≡ frame_bytes → ltb 0 (n + m) ≡ true
no_fuel n m h = ground (arith, h)

module _ {q : Qt} (encode : Encoder) (id : String) where
  pre_roll_trace-frames :
      (fuel k : ℕ) (frames : List (List ℕ)) (rest : List ℕ) (trace : List (Effect q))
      → AreFull frames
      → ltb (length rest) frame_bytes ≡ true
      → ltb fuel (length (concat frames ++ rest)) ≡ false
      → pre_roll_trace encode id fuel k (concat frames ++ rest) trace
        ≡ note_frames encode id k frames trace
  unfolding pre_roll_trace
  pre_roll_trace-frames zero k [] rest trace full short enough = refl
  pre_roll_trace-frames (suc f) k [] rest trace full short enough = rw (short, if◌then◌else◌) refl
  pre_roll_trace-frames zero k (x ∷ xs) rest trace full short enough = absurd (
      ground (
        arith,
        enough,
        ap length (append_assoc x (concat xs) rest),
        length-append x (concat xs ++ rest),
        no_fuel (length x) (length (concat xs ++ rest)) full.0,
      ))
  pre_roll_trace-frames (suc f) k (x ∷ xs) rest trace full short enough =
      let more = concat xs ++ rest in
      let same = append_assoc x (concat xs) rest in
      let size = ap length same ∙ length-append x more in
      let long = ap (λ n. ltb n frame_bytes) size ∙ long_buffer (length x) (length more) full.0 in
      let left =
        fuel_left f (length x) (length more) full.0 (sym (ap (ltb (suc f)) size) ∙ enough) in
      rw (long, if◌then◌else◌, same, take_frame x more full.0, drop_frame x more full.0)
        (pre_roll_trace-frames f (k + 1) xs rest (note_packet encode id (encode k x) trace) full.1
          short left)

-- On a buffer of any number of full frames and an incomplete rest, the loop sends, for each of the
-- frames in order, the packet that the encoder makes of it, if any, under the active stream, and
-- nothing of the rest; the length of the buffer is fuel enough, and nothing but the trace of the
-- client changes.
pub send_pre_roll-frames :
    {q : Qt} (encode : Encoder) (frames : List (List ℕ)) (rest : List ℕ) (o : Orchestrator q)
    → AreFull frames
    → ltb (length rest) frame_bytes ≡ true
    → send_pre_roll encode (length (concat frames ++ rest)) 0 (concat frames ++ rest) o
      ≡ with_trace (note_frames encode o.active_stream_id 0 frames o.client.trace) o
send_pre_roll-frames encode frames rest o full short =
    let bytes = concat frames ++ rest in
    send_pre_roll-trace encode (length bytes) 0 bytes o
    ∙ ap (λ t. with_trace t o)
        (pre_roll_trace-frames encode o.active_stream_id (length bytes) 0 frames rest o.client.trace
          full short (same (length bytes)))
  where
    same : (n : ℕ) → ltb n n ≡ false
    same n = ground arith
