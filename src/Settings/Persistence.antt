-- ===== src/Settings/Persistence.antt =====
-- src/settings/settings.cpp: what another object reads from the store.
use pairion_client.Base.{
  ◌≡◌, ap, String, Bool, true, false, not, List, [], ◌∷◌, str_eq, if◌then◌else◌,
}
use pairion_client.Qt.{Qt, ℤ, IsInt32}
use pairion_client.Store.{QSettings, StoreLaws}
use pairion_client.Settings.{
  Settings, wake_threshold_changed, vad_silence_end_ms_changed, vad_threshold_changed,
  audio_input_device_changed, audio_sample_rate_changed, World, load, changed, int_eq,
  set_wake_threshold, set_vad_silence_end_ms, set_vad_threshold, set_audio_input_device,
  set_audio_sample_rate,
}

-- The calls of the setters.
pub data Setter (q : Qt) : Type 0 where
  wake_threshold : q.Double → Setter q
  vad_silence_end_ms : ℤ → Setter q
  vad_threshold : q.Double → Setter q
  audio_input_device : String → Setter q
  audio_sample_rate : ℤ → Setter q

-- The `int` arguments are in the range of the type.
abbrev pub IsInRange : {q : Qt} → Setter q → Type 0
IsInRange (vad_silence_end_ms n) = IsInt32 n
IsInRange (audio_sample_rate n) = IsInt32 n
IsInRange _ = Unit {0}

abbrev pub AreInRange : {q : Qt} → List (Setter q) → Type 0
AreInRange [] = Unit {0}
AreInRange (setter ∷ setters) = IsInRange setter × AreInRange setters

module _ {q : Qt} (s : QSettings q) where
  abbrev pub call : Setter q → World s → World s
  call (wake_threshold v) w = set_wake_threshold s v w
  call (vad_silence_end_ms v) w = set_vad_silence_end_ms s v w
  call (vad_threshold v) w = set_vad_threshold s v w
  call (audio_input_device v) w = set_audio_input_device s v w
  call (audio_sample_rate v) w = set_audio_sample_rate s v w

  abbrev pub calls : List (Setter q) → World s → World s
  calls [] w = w
  calls (setter ∷ setters) w = calls setters (call setter w)

  module _ (laws : StoreLaws s) where
    -- A setter that changes nothing, or the member and the stored value.
    guard_stored :
        (b : Bool) (w w' : World s)
        → load s w.store ≡ w.settings
        → load s w'.store ≡ w'.settings
        → load s (if b then w' else w).store ≡ (if b then w' else w).settings
    guard_stored true w w' h k = k
    guard_stored false w w' h k = h

    call_stored :
        (setter : Setter q) (w : World s)
        → IsInRange setter
        → load s w.store ≡ w.settings
        → load s (call setter w).store ≡ (call setter w).settings
    unfolding load set_wake_threshold set_vad_silence_end_ms set_vad_threshold
        set_audio_input_device set_audio_sample_rate
    call_stored (wake_threshold v) w r h =
        guard_stored (not (s.equal w.settings.wake_threshold v)) w
          (changed s "wake/threshold" (s.of_double v) wake_threshold_changed
            (record w.settings { wake_threshold = v }) w)
          h
          (simp (laws.value-set_value, laws.to_double-of_double)
            (ap {A = Settings q} (λ m. record m { wake_threshold = v }) h))
    call_stored (vad_silence_end_ms v) w r h =
        guard_stored (not (int_eq w.settings.vad_silence_end_ms v)) w
          (changed s "vad/silence_end_ms" (s.of_int v) vad_silence_end_ms_changed
            (record w.settings { vad_silence_end_ms = v }) w)
          h
          (simp (laws.value-set_value, laws.to_int-of_int v r)
            (ap {A = Settings q} (λ m. record m { vad_silence_end_ms = v }) h))
    call_stored (vad_threshold v) w r h =
        guard_stored (not (s.equal w.settings.vad_threshold v)) w
          (changed s "vad/threshold" (s.of_double v) vad_threshold_changed
            (record w.settings { vad_threshold = v }) w)
          h
          (simp (laws.value-set_value, laws.to_double-of_double)
            (ap {A = Settings q} (λ m. record m { vad_threshold = v }) h))
    call_stored (audio_input_device v) w r h =
        guard_stored (not (str_eq w.settings.audio_input_device v)) w
          (changed s "audio/input_device" (s.of_string v) audio_input_device_changed
            (record w.settings { audio_input_device = v }) w)
          h
          (simp (laws.value-set_value, laws.to_string-of_string)
            (ap {A = Settings q} (λ m. record m { audio_input_device = v }) h))
    call_stored (audio_sample_rate v) w r h =
        guard_stored (not (int_eq w.settings.audio_sample_rate v)) w
          (changed s "audio/sample_rate" (s.of_int v) audio_sample_rate_changed
            (record w.settings { audio_sample_rate = v }) w)
          h
          (simp (laws.value-set_value, laws.to_int-of_int v r)
            (ap {A = Settings q} (λ m. record m { audio_sample_rate = v }) h))

    -- After any calls of the setters, with `int` values in range, on an object that was loaded from
    -- the store, another object that is loaded from the store has the same values.
    pub load-calls :
        (setters : List (Setter q)) (w : World s)
        → AreInRange setters
        → load s w.store ≡ w.settings
        → load s (calls setters w).store ≡ (calls setters w).settings
    load-calls [] w r h = h
    load-calls (setter ∷ setters) w (r, rs) h =
        load-calls setters (call setter w) rs (call_stored setter w r h)
