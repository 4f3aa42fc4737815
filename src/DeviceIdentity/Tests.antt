-- ===== src/DeviceIdentity/Tests.antt =====
-- The device identity at concrete inputs.
use pairion_client.Base.{◌≡◌, refl, List, [], ◌∷◌}
use pairion_client.Qt.Toy.{toy}
use pairion_client.Store.Toy.{toy_settings, toy_store, text}
use pairion_client.Settings.{load}
use pairion_client.Settings.Persistence.{Setter, audio_input_device, calls}
use pairion_client.DeviceIdentity.{load_or_create}
use pairion_client.DeviceIdentity.Stable.{load_or_create_again}

abbrev setters : List (Setter toy)
setters = audio_input_device "USB" ∷ []

created : load_or_create toy_settings "id-1" "token-1" (("device/id", text "id-0") ∷ []) ≡ (
  record { device_id = "id-0"; bearer_token = "token-1" },
  ("device/bearerToken", text "token-1") ∷ ("device/id", text "id-0") ∷ [],
)
unfolding load_or_create
created = refl

load_or_create_again_example :
    let (identity, stored) = load_or_create toy_settings "id-1" "token-1" [] in
    let later =
      (calls toy_settings setters
        (record { settings = load toy_settings []; store = stored; emitted = [] })).store in
    load_or_create toy_settings "id-2" "token-2" later ≡ (identity, later)
load_or_create_again_example =
    load_or_create_again toy_settings toy_store "id-1" "token-1" [] setters (load toy_settings [])
      "id-2" "token-2" refl refl
