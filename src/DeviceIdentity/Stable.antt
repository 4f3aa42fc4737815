-- ===== src/DeviceIdentity/Stable.antt =====
-- src/core/device_identity.cpp and settings.cpp: the identity over restarts and changed settings.
use pairion_client.Base.{
  ◌≡◌, refl, String, Bool, true, false, not, inl, inr, List, [], ◌∷◌, str_eq, if◌then◌else◌,
  Bool-cases,
}
use pairion_client.Qt.{Qt}
use pairion_client.Store.{QSettings, StoreLaws}
use pairion_client.Settings.{
  Settings, World, int_eq, set_wake_threshold, set_vad_silence_end_ms, set_vad_threshold,
  set_audio_input_device, set_audio_sample_rate,
}
use pairion_client.Settings.Persistence.{
  Setter, wake_threshold, vad_silence_end_ms, vad_threshold, audio_input_device, audio_sample_rate,
  call, calls,
}
use pairion_client.DeviceIdentity.{DeviceIdentity, load_or_create}

module _ {q : Qt} (s : QSettings q) where
  -- The store has this identity, and neither part of it is empty.
  abbrev HasStored : DeviceIdentity → s.Store → Type 0
  HasStored i store =
      (s.to_string (s.value store "device/id" s.invalid) ≡ i.device_id)
      × (s.to_string (s.value store "device/bearerToken" s.invalid) ≡ i.bearer_token)
      × (str_eq i.device_id "" ≡ false)
      × (str_eq i.bearer_token "" ≡ false)

  HasStored-load :
      (new_id new_token : String) (i : DeviceIdentity) (store : s.Store)
      → HasStored i store
      → load_or_create s new_id new_token store ≡ (i, store)
  unfolding load_or_create
  HasStored-load new_id new_token i store (id, token, e, f) =
      rw (id, token, e, f, if◌then◌else◌) refl

  module _ (laws : StoreLaws s) where
    guard_device :
        (b : Bool) (i : DeviceIdentity) (w w' : World s)
        → HasStored i w.store
        → HasStored i w'.store
        → HasStored i (if b then w' else w).store
    guard_device true i w w' h k = k
    guard_device false i w w' h k = h

    call-HasStored :
        (setter : Setter q) (i : DeviceIdentity) (w : World s)
        → HasStored i w.store
        → HasStored i (call s setter w).store
    unfolding set_wake_threshold set_vad_silence_end_ms set_vad_threshold set_audio_input_device
        set_audio_sample_rate
    call-HasStored (wake_threshold v) i w h =
        guard_device (not (s.equal w.settings.wake_threshold v)) i w _ h
          (simp (laws.value-set_value) h)
    call-HasStored (vad_silence_end_ms v) i w h =
        guard_device (not (int_eq w.settings.vad_silence_end_ms v)) i w _ h
          (simp (laws.value-set_value) h)
    call-HasStored (vad_threshold v) i w h =
        guard_device (not (s.equal w.settings.vad_threshold v)) i w _ h
          (simp (laws.value-set_value) h)
    call-HasStored (audio_input_device v) i w h =
        guard_device (not (str_eq w.settings.audio_input_device v)) i w _ h
          (simp (laws.value-set_value) h)
    call-HasStored (audio_sample_rate v) i w h =
        guard_device (not (int_eq w.settings.audio_sample_rate v)) i w _ h
          (simp (laws.value-set_value) h)

    calls-HasStored :
        (setters : List (Setter q)) (i : DeviceIdentity) (w : World s)
        → HasStored i w.store
        → HasStored i (calls s setters w).store
    calls-HasStored [] i w h = h
    calls-HasStored (setter ∷ setters) i w h =
        calls-HasStored setters i (call s setter w) (call-HasStored setter i w h)

    load-HasStored :
        (new_id new_token : String) (store : s.Store)
        → str_eq new_id "" ≡ false
        → str_eq new_token "" ≡ false
        → HasStored
            (load_or_create s new_id new_token store).0
            (load_or_create s new_id new_token store).1
    unfolding load_or_create
    load-HasStored new_id new_token store e f =
        let id = s.to_string (s.value store "device/id" s.invalid) in
        let token = s.to_string (s.value store "device/bearerToken" s.invalid) in
        elim (Bool-cases (str_eq id "")) [
          | inl no_id ↦ elim (Bool-cases (str_eq token "")) [
            | inl no_token ↦
                rw (no_id, no_token, if◌then◌else◌)
                  (simp (laws.value-set_value, laws.to_string-of_string) (refl, refl, e, f))
            | inr has_token ↦
                rw (no_id, has_token, if◌then◌else◌)
                  (simp (laws.value-set_value, laws.to_string-of_string) (refl, refl, e, has_token))
          ]
          | inr has_id ↦ elim (Bool-cases (str_eq token "")) [
            | inl no_token ↦
                rw (has_id, no_token, if◌then◌else◌)
                  (simp (laws.value-set_value, laws.to_string-of_string) (refl, refl, has_id, f))
            | inr has_token ↦ rw (has_id, has_token, if◌then◌else◌) (refl, refl, has_id, has_token)
          ]
        ]

    -- Once an identity was loaded or created from any store, with fresh texts that are not empty,
    -- every later load, with whatever fresh texts and after any calls of the settings' setters on
    -- the same store, gives that identity and stores nothing.
    pub load_or_create_again :
        (new_id new_token : String) (store : s.Store) (setters : List (Setter q))
        (settings : Settings q) (other_id other_token : String)
        → str_eq new_id "" ≡ false
        → str_eq new_token "" ≡ false
        → let (identity, stored) = load_or_create s new_id new_token store in
          let later =
            (calls s setters
              (record { settings = settings; store = stored; emitted = [] })).store in
          load_or_create s other_id other_token later ≡ (identity, later)
    load_or_create_again new_id new_token store setters settings other_id other_token e f =
        let (identity, stored) = load_or_create s new_id new_token store in
        let w : World s = record { settings = settings; store = stored; emitted = [] } in
        HasStored-load other_id other_token identity (calls s setters w).store
          (calls-HasStored setters identity w (load-HasStored new_id new_token store e f))
