-- ===== src/Pairing/Session/Persistence.antt =====
-- What the repository may load: RehydratePairingSession against the session invariant.
use alexandryn.Base.{ℕ, ◌≡◌, ◌↔◌, List, arith, length, ℤ, Text, Result, ok}
use alexandryn.Pairing.Code.{PairingCode}
use alexandryn.Pairing.Session.{
  valid, PairingSession, new_pairing_session, ttl_out_of_range, state_device_mismatch,
  rehydrate_pairing_session,
}
use alexandryn.Pairing.Session.Lifecycle.{
  IsValid, Call, run, run-IsValid, new_pairing_session-IsValid,
}

-- Loading the row that a session is saved as.
abbrev pub reload : PairingSession → Result PairingSession
reload s =
    rehydrate_pairing_session s.id s.initiated_by s.code s.state s.created_at s.expires_at
      s.device_id

-- A row loads exactly when it satisfies the session invariant, and it loads as itself.
pub reload_iff : (s : PairingSession) → (reload s ≡ ok s) ↔ IsValid s
unfolding rehydrate_pairing_session ttl_out_of_range valid state_device_mismatch
reload_iff s = (λ h. ground arith, λ v. ground arith)

-- Whatever calls a freshly constructed session with a code of eight characters has seen, the row
-- that it is saved as loads again, as that session and no other.
pub reload-run :
    (id initiated_by : Text) (code : PairingCode) (ttl : ℤ) (now : ℕ) (s : PairingSession)
    (cs : List Call)
    → length code.b ≡ 8
    → new_pairing_session id initiated_by code ttl now ≡ ok s
    → reload (run s cs) ≡ ok (run s cs)
reload-run id initiated_by code ttl now s cs l h =
    (reload_iff (run s cs)).1
      (run-IsValid s cs (new_pairing_session-IsValid id initiated_by code ttl now s l h).0)
