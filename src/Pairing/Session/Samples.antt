-- ===== src/Pairing/Session/Samples.antt =====
-- A pairing session at work.
use alexandryn.Base.{
  ◌<◌, ◌≡◌, refl, ap, ◌↔◌, inl, inr, true, false, none, some, List, [], ◌∷◌, arith, pos, Text, lit,
  text_eq, trim_space, is_blank, pairing_wrong_state, Result, ok, err,
}
use alexandryn.Pairing.Code.{PairingCode, equal}
use alexandryn.Pairing.Session.{
  pending, verified, consumed, PairingSession, new_pairing_session, ttl_out_of_range, expire_at,
  verify, consume, conflict_of, verify_and_consume,
}
use alexandryn.Pairing.Session.Lifecycle.{
  Call, expiring, verifying, consuming, apply, run, IsValid, Saw, run-IsValid, terminal_absorbs,
  verify_iff, consumed_needs_verify, verify_and_consume_lem,
}
use alexandryn.Pairing.Session.Persistence.{reload, reload_iff, reload-run}

abbrev right_code : PairingCode
right_code = record { b = lit "ABCD1234" }

abbrev wrong_code : PairingCode
wrong_code = record { b = lit "ABCD1235" }

abbrev fresh_session : PairingSession
fresh_session = record {
  id = lit "s1";
  code = right_code;
  initiated_by = lit "admin";
  state = pending;
  created_at = 1000;
  expires_at = 1600;
  device_id = none;
}

abbrev used_session : PairingSession
used_session = record fresh_session { device_id = some (lit "tv"); state = consumed }

fresh_session-made :
    new_pairing_session (lit "s1") (lit "admin") right_code (pos 600) 1000 ≡ ok fresh_session
unfolding new_pairing_session ttl_out_of_range is_blank trim_space
fresh_session-made = refl

fresh_session-IsValid : IsValid fresh_session
unfolding is_blank trim_space
fresh_session-IsValid = record {
  named = refl;
  initiated = refl;
  coded = refl;
  opens = omega arith;
  closes = omega arith;
  device_named = refl;
  agrees = refl;
}

-- A wrong code, the right one, the end of the pairing, and a call that comes too late.
abbrev pairing : List Call
pairing =
    verifying 1100 wrong_code (lit "tv")
    ∷ verifying 1200 right_code (lit "tv")
    ∷ consuming 1300
    ∷ expiring 9999
    ∷ []

paired : run fresh_session pairing ≡ used_session
unfolding run apply expire_at verify consume equal text_eq is_blank trim_space
paired = refl

run-IsValid_example : IsValid (run fresh_session pairing)
run-IsValid_example = run-IsValid fresh_session pairing fresh_session-IsValid

terminal_absorbs_run :
    (run used_session pairing ≡ used_session)
    × (verify used_session 1400 right_code (lit "tv")
        ≡ (used_session, err (conflict_of pairing_wrong_state)))
    × (consume used_session 1400 ≡ (used_session, err (conflict_of pairing_wrong_state)))
terminal_absorbs_run = terminal_absorbs used_session pairing 1400 right_code (lit "tv") (inl refl)

verify_iff_run :
    (verify fresh_session 1200 right_code (lit "tv")
      ≡ (record fresh_session { device_id = some (lit "tv"); state = verified }, ok tt))
    ↔ (fresh_session.state ≡ pending)
      × (1200 < 1600)
      × (is_blank (lit "tv") ≡ false)
      × (equal right_code right_code ≡ true)
verify_iff_run = verify_iff fresh_session 1200 right_code (lit "tv")

consumed_needs_verify_example : Saw fresh_session pairing
consumed_needs_verify_example =
    consumed_needs_verify fresh_session pairing refl
      (inr (ap (λ (s : PairingSession). s.state) paired))

abbrev accepts : PairingSession → Result (Unit {0})
accepts s = ok tt

abbrev inserts : Text → Text → Result (Unit {0})
inserts device_id label = ok tt

enrolled :
    verify_and_consume
      (ok fresh_session)
      accepts
      inserts
      right_code
      (lit "tv")
      (lit "Den")
      (lit "tv")
      1200
    ≡ ok used_session
unfolding verify_and_consume verify consume equal text_eq is_blank trim_space
enrolled = refl

verify_and_consume_lem_example :
    (s : PairingSession) × (ok fresh_session ≡ ok s)
    × (s.state ≡ pending)
    × (1200 < s.expires_at)
    × (equal s.code right_code ≡ true)
    × (is_blank (lit "tv") ≡ false)
    × (used_session ≡ record s { device_id = some (lit "tv"); state = consumed })
    × (accepts used_session ≡ ok tt)
    × (inserts (lit "tv") (lit "Den") ≡ ok tt)
verify_and_consume_lem_example =
    verify_and_consume_lem (ok fresh_session) accepts inserts right_code (lit "tv") (lit "Den")
      (lit "tv") 1200 used_session enrolled

reload_iff_run : (reload fresh_session ≡ ok fresh_session) ↔ IsValid fresh_session
reload_iff_run = reload_iff fresh_session

reload-run_test : reload (run fresh_session pairing) ≡ ok (run fresh_session pairing)
reload-run_test =
    reload-run (lit "s1") (lit "admin") right_code (pos 600) 1000 fresh_session pairing refl
      fresh_session-made
