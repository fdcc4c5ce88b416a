-- ===== src/Pairing/Device.antt =====
-- internal/domain/device_pairing.go, PairedDevice. A method returns the device that it leaves
-- beside its error. The sync cursor is an int64.
mod History
mod Samples
use alexandryn.Base.{
  ℕ, Bool, true, false, not, ◌||◌, Option, none, some, ltb, if◌then◌else◌, length, ℤ, pos, ltb_ℤ,
  leb_ℤ, Text, trim_space, is_empty, is_blank, invalid_input, conflict, internal, device_revoked,
  device_already_revoked, Error, error, Result, ok, err, ◌>>=◌, ◌>>◌, reject_if,
}

pub data DeviceClass : Type 0 where
  phone tablet desktop tv unknown : DeviceClass
  other_class : Text → DeviceClass

pub class_valid : DeviceClass → Bool
class_valid (other_class t) = false
class_valid c = true

pub data EnrolledVia : Type 0 where
  pairing_code password_login : EnrolledVia
  other_method : Text → EnrolledVia

pub via_valid : EnrolledVia → Bool
via_valid (other_method t) = false
via_valid v = true

abbrev pub max_device_label_runes : ℕ
max_device_label_runes = 100

pub record PairedDevice : Type 0 where
  pub id : Text
  pub owner : Text
  pub label : Text
  pub device_class : DeviceClass
  pub enrolled_via : EnrolledVia
  pub created_at : ℕ
  pub last_seen_at : ℕ
  pub revoked_at : Option ℕ
  pub sync_cursor : ℤ
  pub last_synced_at : Option ℕ

pub new_paired_device : Text → Text → Text → DeviceClass → EnrolledVia → ℕ → Result PairedDevice
new_paired_device id owner untrimmed device_class enrolled_via now =
    let label = trim_space untrimmed in
    do
      reject_if (is_blank id) (error invalid_input)
      reject_if (is_blank owner) (error invalid_input)
      reject_if (is_empty label) (error invalid_input)
      reject_if (ltb max_device_label_runes (length label)) (error invalid_input)
      reject_if (not (class_valid device_class)) (error invalid_input)
      reject_if (not (via_valid enrolled_via)) (error invalid_input)
      ok (record {
        id = id;
        owner = owner;
        label = label;
        device_class = device_class;
        enrolled_via = enrolled_via;
        created_at = now;
        last_seen_at = now;
        revoked_at = none;
        sync_cursor = pos 0;
        last_synced_at = none;
      })

-- The row's columns, as a device that is not yet checked.
pub rehydrate_paired_device : PairedDevice → Result PairedDevice
rehydrate_paired_device row = do
  reject_if (is_blank row.id || is_blank row.owner) (error internal)
  reject_if (is_blank row.label || ltb max_device_label_runes (length row.label)) (error internal)
  reject_if (not (class_valid row.device_class)) (error internal)
  reject_if (not (via_valid row.enrolled_via)) (error internal)
  reject_if (ltb_ℤ row.sync_cursor (pos 0)) (error internal)
  ok row

abbrev is_nil {ℓ} : {A : Type ℓ} → Option A → Bool
is_nil none = true
is_nil (some a) = false

abbrev pub revoked_error : Error
revoked_error = record { category = conflict; sentinel = device_revoked }

abbrev pub already_revoked_error : Error
already_revoked_error = record { category = conflict; sentinel = device_already_revoked }

pub revoke : PairedDevice → ℕ → PairedDevice × Result (Unit {0})
revoke d now =
    if not (is_nil d.revoked_at)
    then (d, err already_revoked_error)
    else (record d { revoked_at = some now }, ok tt)

pub touch : PairedDevice → ℕ → PairedDevice × Result (Unit {0})
touch d now =
    if not (is_nil d.revoked_at)
    then (d, err revoked_error)
    else if ltb d.last_seen_at now
    then (record d { last_seen_at = now }, ok tt)
    else (d, ok tt)

pub advance_cursor : PairedDevice → ℤ → ℕ → PairedDevice × Result (Unit {0})
advance_cursor d new_cursor at =
    if not (is_nil d.revoked_at)
    then (d, err revoked_error)
    else if leb_ℤ new_cursor d.sync_cursor
    then (d, err (error invalid_input))
    else (record d { sync_cursor = new_cursor; last_synced_at = some at }, ok tt)
