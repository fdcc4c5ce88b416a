-- ===== src/Pairing/Device/History.antt =====
-- What holds of a paired device over every sequence of calls.
use alexandryn.Base.{
  ℕ, ◌+◌, ◌≤◌, ◌≡◌, refl, sym, ◌∙◌, subst, ◌≢◌, ◌↔◌, true, false, none, some, List, [], ◌∷◌, arith,
  length, ℤ, pos, pos_part, neg_part, ◌<ℤ◌, Text, is_blank, is_blank-trim_space, ok, err,
}
use alexandryn.Pairing.Device.{
  PairedDevice, DeviceClass, EnrolledVia, class_valid, via_valid, max_device_label_runes,
  new_paired_device, rehydrate_paired_device, revoke, touch, advance_cursor, revoked_error,
  already_revoked_error,
}

pub data Call : Type 0 where
  revoking : ℕ → Call
  touching : ℕ → Call
  advancing : ℤ → ℕ → Call

unfoldable pub apply : PairedDevice → Call → PairedDevice
apply d (revoking now) = (revoke d now).0
apply d (touching now) = (touch d now).0
apply d (advancing c at) = (advance_cursor d c at).0

unfoldable pub run : PairedDevice → List Call → PairedDevice
run d [] = d
run d (c ∷ cs) = run (apply d c) cs

infix 50 ◌≤ℤ◌
abbrev ◌≤ℤ◌ : ℤ → ℤ → Type 0
a ≤ℤ b = pos_part a + neg_part b ≤ pos_part b + neg_part a

-- `e` is a later state of the device `d`.
pub record IsLater (d e : PairedDevice) : Type 0 where
  pub same_owner : e.owner ≡ d.owner
  pub seen_forward : d.last_seen_at ≤ e.last_seen_at
  pub cursor_forward : d.sync_cursor ≤ℤ e.sync_cursor
  pub stays_revoked : d.revoked_at ≢ none → e ≡ d

apply-IsLater : (d : PairedDevice) (c : Call) → IsLater d (apply d c)
unfolding apply revoke touch advance_cursor
apply-IsLater d (revoking now) = ground arith
apply-IsLater d (touching now) = ground arith
apply-IsLater d (advancing c at) = ground arith

IsLater-trans : (d e f : PairedDevice) → IsLater d e → IsLater e f → IsLater d f
IsLater-trans d e f p q = record {
  same_owner = q.same_owner ∙ p.same_owner;
  seen_forward = omega arith;
  cursor_forward = omega arith;
  stays_revoked = λ h.
      q.stays_revoked
        (subst (λ (x : PairedDevice). x.revoked_at ≢ none) (sym (p.stays_revoked h)) h)
      ∙ p.stays_revoked h;
}

-- Whatever is called, the owner stays, LastSeenAt and the sync cursor never go back, and a revoked
-- device never changes again.
pub run-IsLater : (d : PairedDevice) (cs : List Call) → IsLater d (run d cs)
unfolding run
run-IsLater d [] = record {
  same_owner = refl;
  seen_forward = omega arith;
  cursor_forward = omega arith;
  stays_revoked = λ h. refl;
}
run-IsLater d (c ∷ cs) =
    IsLater-trans d (apply d c) (run (apply d c) cs) (apply-IsLater d c)
      (run-IsLater (apply d c) cs)

-- After a successful Revoke every further call is refused with its own sentinel and changes
-- nothing.
revoke_final :
    (d e : PairedDevice) (now later : ℕ) (cursor : ℤ)
    → revoke d now ≡ (e, ok tt)
    → (revoke e later ≡ (e, err already_revoked_error))
      × (touch e later ≡ (e, err revoked_error))
      × (advance_cursor e cursor later ≡ (e, err revoked_error))
unfolding revoke touch advance_cursor
revoke_final d e now later cursor h = ground arith

-- AdvanceCursor succeeds exactly on an active device at a strictly higher cursor, and then records
-- the cursor and the time and changes nothing else.
advance_cursor_iff :
    (d : PairedDevice) (cursor : ℤ) (at : ℕ)
    → (advance_cursor d cursor at
        ≡ (record d { sync_cursor = cursor; last_synced_at = some at }, ok tt))
      ↔ (d.revoked_at ≡ none) × (d.sync_cursor <ℤ cursor)
unfolding advance_cursor
advance_cursor_iff d cursor at = (λ h. ground arith, λ h. ground arith)

-- What RehydratePairedDevice asks of a row.
pub record IsLoadable (d : PairedDevice) : Type 0 where
  pub named : is_blank d.id ≡ false
  pub owned : is_blank d.owner ≡ false
  pub labelled : is_blank d.label ≡ false
  pub short : length d.label ≤ max_device_label_runes
  pub classed : class_valid d.device_class ≡ true
  pub enrolled : via_valid d.enrolled_via ≡ true
  pub forward : pos 0 ≤ℤ d.sync_cursor

rehydrate-IsLoadable : (d : PairedDevice) → IsLoadable d → rehydrate_paired_device d ≡ ok d
unfolding rehydrate_paired_device
rehydrate-IsLoadable d h = ground arith

apply-IsLoadable : (d : PairedDevice) (c : Call) → IsLoadable d → IsLoadable (apply d c)
unfolding apply revoke touch advance_cursor
apply-IsLoadable d (revoking now) h = ground arith
apply-IsLoadable d (touching now) h = ground arith
apply-IsLoadable d (advancing c at) h = ground arith

run-IsLoadable : (d : PairedDevice) (cs : List Call) → IsLoadable d → IsLoadable (run d cs)
unfolding run
run-IsLoadable d [] h = h
run-IsLoadable d (c ∷ cs) h = run-IsLoadable (apply d c) cs (apply-IsLoadable d c h)

new_paired_device-IsLoadable :
    (id owner label : Text) (device_class : DeviceClass) (via : EnrolledVia) (now : ℕ)
    (d : PairedDevice)
    → new_paired_device id owner label device_class via now ≡ ok d
    → IsLoadable d
unfolding new_paired_device
new_paired_device-IsLoadable id owner label device_class via now d h =
    ground (arith, is_blank-trim_space label)

-- The row of a device that NewPairedDevice returned loads again, as that device, after any calls.
pub rehydrate-run :
    (id owner label : Text) (device_class : DeviceClass) (via : EnrolledVia) (now : ℕ)
    (d : PairedDevice) (cs : List Call)
    → new_paired_device id owner label device_class via now ≡ ok d
    → rehydrate_paired_device (run d cs) ≡ ok (run d cs)
rehydrate-run id owner label device_class via now d cs h =
    rehydrate-IsLoadable (run d cs)
      (run-IsLoadable d cs (new_paired_device-IsLoadable id owner label device_class via now d h))
