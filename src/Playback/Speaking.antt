-- ===== src/Playback/Speaking.antt =====
-- The signal `speakingStateChanged` and the member `m_isSpeaking`.
use pairion_client.Base.{
  ℕ, ◌≡◌, refl, ◌⊎◌, inl, inr, String, Bool, true, false, List, [], ◌∷◌, ◌++◌, arith, str_eq,
  if◌then◌else◌, Bool-cases, subst, sym, ◌∙◌,
}
use pairion_client.Playback.{
  Playback, PlaybackSignal, is_empty, flushed, speaking_state_changed, playback_error, Device,
  Decoded, pcm, failed, fall_silent, on_silence_timeout, stop, on_drain_tick, handle_pcm_frame,
  decode_opus_frame, play_decoded, handle_opus_frame, finish_stream, end_error, handle_stream_end,
  prepare_playback, start,
}

-- The signals tell each change from `b` to `c`: "speaking" only after silence, "idle" only after
-- speech, and nothing else.
abbrev pub Announces : Bool → List PlaybackSignal → Bool → Type 0
Announces b [] c = b ≡ c
Announces b (speaking_state_changed s ∷ signals) c =
    ((s ≡ "speaking") × (b ≡ false) × Announces true signals c)
    ⊎ ((s ≡ "idle") × (b ≡ true) × Announces false signals c)
Announces b (playback_error message ∷ signals) c = Announces b signals c

-- What a method makes of the playback and emits.
abbrev pub IsAnnounced : Playback → Playback × List PlaybackSignal → Type 0
IsAnnounced p r = Announces p.is_speaking r.1 r.0.is_speaking

fall_silent-IsAnnounced :
    (p : Playback) → IsAnnounced p (fall_silent p) × ((fall_silent p).0.is_speaking ≡ false)
unfolding fall_silent
fall_silent-IsAnnounced p = elim (Bool-cases p.is_speaking) [
  | inl e ↦ rw (e, if◌then◌else◌) (inr (refl, refl, refl), refl)
  | inr e ↦ rw (e, if◌then◌else◌) (refl, refl)
]

pub silence-IsAnnounced : (p : Playback) → IsAnnounced p (on_silence_timeout p)
unfolding on_silence_timeout
silence-IsAnnounced p = (fall_silent-IsAnnounced (record p { silence_timer = false })).0

pub stop-IsAnnounced : (p : Playback) → IsAnnounced p (stop p) × ((stop p).0.is_speaking ≡ false)
unfolding stop
stop-IsAnnounced p = fall_silent-IsAnnounced _

pub stop_signals :
    (p : Playback) → ((stop p).1 ≡ []) ⊎ ((stop p).1 ≡ speaking_state_changed "idle" ∷ [])
unfolding stop fall_silent
stop_signals p = elim (Bool-cases p.is_speaking) [
  | inl e ↦ rw (e, if◌then◌else◌) (inr refl)
  | inr e ↦ rw (e, if◌then◌else◌) (inl refl)
]

handle_pcm_frame-IsAnnounced :
    (write : Device) (bytes : List ℕ) (p : Playback)
    → IsAnnounced p (handle_pcm_frame write bytes p)
unfolding handle_pcm_frame
handle_pcm_frame-IsAnnounced write bytes p = elim (Bool-cases p.is_speaking) [
  | inl e ↦ elim (Bool-cases p.device) [
    | inl d ↦ rw (e, d, if◌then◌else◌) refl
    | inr d ↦ rw (e, d, if◌then◌else◌) refl
  ]
  | inr e ↦ elim (Bool-cases p.device) [
    | inl d ↦ rw (e, d, if◌then◌else◌) (inl (refl, refl, refl))
    | inr d ↦ rw (e, d, if◌then◌else◌) (inl (refl, refl, refl))
  ]
]

pub opus-IsAnnounced :
    (opus_decode : List ℕ → Decoded) (write : Device) (frame : List ℕ) (p : Playback)
    → IsAnnounced p (handle_opus_frame opus_decode write frame p)
unfolding handle_opus_frame
opus-IsAnnounced opus_decode write frame p = play (decode_opus_frame opus_decode frame)
  where
    play : (d : Decoded) → IsAnnounced p (play_decoded write d p)
    play (pcm bytes) = handle_pcm_frame-IsAnnounced write bytes p
    play (failed message) = refl

announce_error :
    (b c : Bool) (signals : List PlaybackSignal) (reason : String)
    → Announces b signals c
    → Announces b (signals ++ end_error reason) c
announce_error b c [] reason h = elim (Bool-cases (str_eq reason "normal")) [
  | inl e ↦ rw (e, if◌then◌else◌) h
  | inr e ↦ rw (e, if◌then◌else◌) h
]
announce_error b c (speaking_state_changed s ∷ signals) reason (inl h) =
    inl (h.0, h.1, announce_error true c signals reason h.2)
announce_error b c (speaking_state_changed s ∷ signals) reason (inr h) =
    inr (h.0, h.1, announce_error false c signals reason h.2)
announce_error b c (playback_error m ∷ signals) reason h = announce_error b c signals reason h

finish_stream-is_speaking :
    (reason : String) (p : Playback) → (finish_stream reason p).is_speaking ≡ p.is_speaking
finish_stream-is_speaking reason p = elim (Bool-cases (str_eq reason "normal")) [
  | inr e ↦ rw (e, if◌then◌else◌) refl
  | inl e ↦ rw (e, if◌then◌else◌) (by_buffer p.jitter_buffer)
]
  where
    by_buffer :
        (buffer : List (List ℕ))
        → (if is_empty buffer then p else record p { drain_timer = true }).is_speaking
          ≡ p.is_speaking
    by_buffer [] = refl
    by_buffer (x ∷ xs) = refl

-- After the end of a stream nothing is spoken, whatever the reason.
pub stream_end-IsAnnounced :
    (reason : String) (p : Playback)
    → IsAnnounced p (handle_stream_end reason p)
      × ((handle_stream_end reason p).0.is_speaking ≡ false)
unfolding handle_stream_end
stream_end-IsAnnounced reason p =
    let q = record p { silence_timer = false } in
    let (told, silent) = fall_silent-IsAnnounced q in
    let same = finish_stream-is_speaking reason (fall_silent q).0 in
    (
      announce_error p.is_speaking _ (fall_silent q).1 reason
          (subst (λ b. Announces p.is_speaking (fall_silent q).1 b) (sym same) told),
      same ∙ silent,
    )

pub prepare-is_speaking :
    (starts : Bool) (write : Device) (p : Playback)
    → (prepare_playback starts write p).is_speaking ≡ p.is_speaking
unfolding prepare_playback start
prepare-is_speaking starts write p = ground arith

pub drain_tick-is_speaking :
    (write : Device) (p : Playback) → (on_drain_tick write p).is_speaking ≡ p.is_speaking
unfolding on_drain_tick
drain_tick-is_speaking write p =
    same (flushed write p) (flushed write p).jitter_buffer ∙ flushed_same
  where
    same :
        (r : Playback) (buffer : List (List ℕ))
        → (if is_empty buffer then record r { drain_timer = false } else r).is_speaking
          ≡ r.is_speaking
    same r [] = refl
    same r (x ∷ xs) = refl

    flushed_same : (flushed write p).is_speaking ≡ p.is_speaking
    flushed_same = ground arith

-- The methods and timer slots of the playback.
pub data Method : Type 0 where
  -- with the decoder as it is by then
  opus_frame : (List ℕ → Decoded) → List ℕ → Method
  stream_end : String → Method
  prepare : Bool → Method
  stop_now silence_elapsed drain : Method

abbrev pub call : Device → Method → Playback → Playback × List PlaybackSignal
call write (opus_frame opus_decode frame) p = handle_opus_frame opus_decode write frame p
call write (stream_end reason) p = handle_stream_end reason p
call write (prepare starts) p = (prepare_playback starts write p, [])
call write stop_now p = stop p
call write silence_elapsed p = on_silence_timeout p
call write drain p = (on_drain_tick write p, [])

-- Calls in order, with all their signals in order.
abbrev pub calls : Device → List Method → Playback → Playback × List PlaybackSignal
calls write [] p = (p, [])
calls write (m ∷ ms) p =
    let (p1, signals) = call write m p in
    let (p2, more) = calls write ms p1 in (p2, signals ++ more)

call-IsAnnounced : (write : Device) (m : Method) (p : Playback) → IsAnnounced p (call write m p)
call-IsAnnounced write (opus_frame opus_decode frame) p = opus-IsAnnounced opus_decode write frame p
call-IsAnnounced write (stream_end reason) p = (stream_end-IsAnnounced reason p).0
call-IsAnnounced write (prepare starts) p = sym (prepare-is_speaking starts write p)
call-IsAnnounced write stop_now p = (stop-IsAnnounced p).0
call-IsAnnounced write silence_elapsed p = silence-IsAnnounced p
call-IsAnnounced write drain p = sym (drain_tick-is_speaking write p)

Announces-append :
    (b c d : Bool) (xs ys : List PlaybackSignal)
    → Announces b xs c
    → Announces c ys d
    → Announces b (xs ++ ys) d
Announces-append b c d [] ys h k = subst (λ e. Announces e ys d) (sym h) k
Announces-append b c d (speaking_state_changed s ∷ xs) ys (inl h) k =
    inl (h.0, h.1, Announces-append true c d xs ys h.2 k)
Announces-append b c d (speaking_state_changed s ∷ xs) ys (inr h) k =
    inr (h.0, h.1, Announces-append false c d xs ys h.2 k)
Announces-append b c d (playback_error m ∷ xs) ys h k = Announces-append b c d xs ys h k

-- Over any calls of the playback in any order, the signals `speakingStateChanged` alternate between
-- "speaking" and "idle", starting from the opposite of what the member says before the calls, and
-- the last of them tells the value of the member after the calls. The decoder and the device may
-- do anything.
pub calls-IsAnnounced :
    (write : Device) (methods : List Method) (p : Playback) → IsAnnounced p (calls write methods p)
calls-IsAnnounced write [] p = refl
calls-IsAnnounced write (m ∷ ms) p =
    Announces-append p.is_speaking _ _ (call write m p).1 _ (call-IsAnnounced write m p)
      (calls-IsAnnounced write ms (call write m p).0)
