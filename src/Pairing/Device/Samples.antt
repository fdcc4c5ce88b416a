-- ===== src/Pairing/Device/Samples.antt =====
-- A paired device at work.
use alexandryn.Base.{◌≡◌, refl, none, some, List, [], ◌∷◌, pos, lit, trim_space, is_blank, ok}
use alexandryn.Pairing.Device.{
  PairedDevice, tv, EnrolledVia, class_valid, via_valid, new_paired_device, rehydrate_paired_device,
  revoke, touch, advance_cursor,
}
use alexandryn.Pairing.Device.History.{
  Call, revoking, touching, advancing, apply, run, IsLater, run-IsLater, rehydrate-run,
}

abbrev den : PairedDevice
den = record {
  id = lit "d1";
  owner = lit "u1";
  label = lit "Den";
  device_class = tv;
  enrolled_via = EnrolledVia.pairing_code;
  created_at = 1000;
  last_seen_at = 1000;
  revoked_at = none;
  sync_cursor = pos 0;
  last_synced_at = none;
}

den-made :
    new_paired_device (lit "d1") (lit "u1") (lit " Den ") tv EnrolledVia.pairing_code 1000 ≡ ok den
unfolding new_paired_device is_blank trim_space class_valid via_valid
den-made = refl

-- A sight out of order, an advance, one that goes back, and the end.
abbrev history : List Call
history =
    touching 2000
    ∷ touching 1500
    ∷ advancing (pos 7) 2100
    ∷ advancing (pos 7) 2200
    ∷ revoking 3000
    ∷ touching 4000
    ∷ []

after_history : run den history ≡ record den {
  last_seen_at = 2000;
  revoked_at = some 3000;
  sync_cursor = pos 7;
  last_synced_at = some 2100;
}
unfolding run apply revoke touch advance_cursor
after_history = refl

run-IsLater_example : IsLater den (run den history)
run-IsLater_example = run-IsLater den history

rehydrate-run_test : rehydrate_paired_device (run den history) ≡ ok (run den history)
rehydrate-run_test =
    rehydrate-run (lit "d1") (lit "u1") (lit " Den ") tv EnrolledVia.pairing_code 1000 den history
      den-made
