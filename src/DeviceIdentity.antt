-- ===== src/DeviceIdentity.antt =====
-- src/core/device_identity.cpp: the id and the token of the device, in the same QSettings as the
-- settings. The texts that QUuid::createUuid would give are arguments.
pub mod Stable
mod Tests
use pairion_client.Base.{String, str_eq, if◌then◌else◌}
use pairion_client.Qt.{Qt}
use pairion_client.Store.{QSettings}

pub record DeviceIdentity : Type 0 where
  pub device_id : String
  pub bearer_token : String

module _ {q : Qt} (s : QSettings q) where
  -- The text in the store, or else the fresh one, which is stored.
  abbrev pub found_or_new : String → String → String → s.Store → String × s.Store
  found_or_new key found fresh store =
      if str_eq found "" then (fresh, s.set_value key (s.of_string fresh) store) else (found, store)

  -- With the fresh id and the fresh token.
  unfoldable pub load_or_create : String → String → s.Store → DeviceIdentity × s.Store
  load_or_create new_id new_token store =
      let stored_id = s.to_string (s.value store "device/id" s.invalid) in
      let stored_token = s.to_string (s.value store "device/bearerToken" s.invalid) in
      let (device_id, store1) = found_or_new "device/id" stored_id new_id store in
      let (bearer_token, store2) =
        found_or_new "device/bearerToken" stored_token new_token store1 in
      (record { device_id = device_id; bearer_token = bearer_token }, store2)
