-- ===== src/Pairing/Session/Lifecycle.antt =====
-- The life of a pairing session under any calls: what is kept, what ends it, and what it takes to
-- be consumed.
use alexandryn.Base.{
  ℕ, ◌+◌, ◌≤◌, ◌<◌, ◌≡◌, refl, ◌≢◌, ◌↔◌, ◌⊎◌, inl, inr, true, false, Option, none, some, List, [],
  ◌∷◌, arith, length, ℤ, Text, is_blank, pairing_wrong_state, pairing_code_mismatch, Result, ok,
  err,
}
use alexandryn.Pairing.Code.{PairingCode, equal}
use alexandryn.Pairing.Session.{
  PairingState, pending, verified, consumed, expired, unknown_state, PairingSession,
  max_pairing_ttl, new_pairing_session, ttl_out_of_range, blank_device, expire_at, verify, consume,
  conflict_of, verify_and_consume,
}

-- A call of one of the three methods.
pub data Call : Type 0 where
  expiring : ℕ → Call
  verifying : ℕ → PairingCode → Text → Call
  consuming : ℕ → Call

unfoldable pub apply : PairingSession → Call → PairingSession
apply s (expiring now) = expire_at s now
apply s (verifying now submitted device_id) = (verify s now submitted device_id).0
apply s (consuming now) = (consume s now).0

unfoldable pub run : PairingSession → List Call → PairingSession
run s [] = s
run s (c ∷ cs) = run (apply s c) cs

-- The device ID is there once the session is verified, and only then; an expired session may have
-- been verified before.
abbrev Agrees : PairingState → Option Text → Type 0
Agrees pending d = d ≡ none
Agrees verified d = d ≢ none
Agrees consumed d = d ≢ none
Agrees expired d = Unit
Agrees (unknown_state t) d = ⊥

pub record IsValid (s : PairingSession) : Type 0 where
  pub named : is_blank s.id ≡ false
  pub initiated : is_blank s.initiated_by ≡ false
  pub coded : length s.code.b ≡ 8
  pub opens : s.created_at < s.expires_at
  pub closes : s.expires_at ≤ s.created_at + max_pairing_ttl
  pub device_named : blank_device s.device_id ≡ false
  pub agrees : Agrees s.state s.device_id

apply-IsValid : (s : PairingSession) (c : Call) → IsValid s → IsValid (apply s c)
unfolding apply expire_at verify consume
apply-IsValid s (expiring now) v = ground arith
apply-IsValid s (verifying now submitted device_id) v = ground arith
apply-IsValid s (consuming now) v = ground arith

-- Whatever methods are called, in any order and at any times, a valid session stays valid: its
-- window, its code and its names are sound, and a device ID is recorded exactly when the state
-- says so.
pub run-IsValid : (s : PairingSession) (cs : List Call) → IsValid s → IsValid (run s cs)
unfolding run
run-IsValid s [] v = v
run-IsValid s (c ∷ cs) v = run-IsValid (apply s c) cs (apply-IsValid s c v)

-- A session that the constructor returns is valid and pending, if its code came from
-- NewPairingCode.
pub new_pairing_session-IsValid :
    (id initiated_by : Text) (code : PairingCode) (ttl : ℤ) (now : ℕ) (s : PairingSession)
    → length code.b ≡ 8
    → new_pairing_session id initiated_by code ttl now ≡ ok s
    → IsValid s × (s.state ≡ pending)
unfolding new_pairing_session ttl_out_of_range
new_pairing_session-IsValid id initiated_by code ttl now s l h = ground arith

abbrev IsTerminal : PairingState → Type 0
IsTerminal s = (s ≡ consumed) ⊎ (s ≡ expired)

apply-terminal : (s : PairingSession) (c : Call) → IsTerminal s.state → apply s c ≡ s
unfolding apply expire_at verify consume
apply-terminal s (expiring now) t = ground arith
apply-terminal s (verifying now submitted device_id) t = ground arith
apply-terminal s (consuming now) t = ground arith

run-terminal : (s : PairingSession) (cs : List Call) → IsTerminal s.state → run s cs ≡ s
unfolding run
run-terminal s [] t = refl
run-terminal s (c ∷ cs) t = rw (apply-terminal s c t) (run-terminal s cs t)

-- A consumed or expired session is never changed again, and Verify and Consume refuse it with
-- ErrPairingWrongState at any time.
pub terminal_absorbs :
    (s : PairingSession) (cs : List Call) (now : ℕ) (submitted : PairingCode) (device_id : Text)
    → IsTerminal s.state
    → (run s cs ≡ s)
      × (verify s now submitted device_id ≡ (s, err (conflict_of pairing_wrong_state)))
      × (consume s now ≡ (s, err (conflict_of pairing_wrong_state)))
unfolding verify consume
terminal_absorbs s cs now submitted device_id t = (run-terminal s cs t, ground arith, ground arith)

-- Verify succeeds exactly on a pending session, before its expiry, with a named device and the
-- session's own code; and it then records the device and nothing else.
pub verify_iff :
    (s : PairingSession) (now : ℕ) (submitted : PairingCode) (device_id : Text)
    → (verify s now submitted device_id
        ≡ (record s { device_id = some device_id; state = verified }, ok tt))
      ↔ (s.state ≡ pending)
        × (now < s.expires_at)
        × (is_blank device_id ≡ false)
        × (equal s.code submitted ≡ true)
unfolding verify
verify_iff s now submitted device_id = (λ h. ground arith, λ h. ground arith)

-- A wrong code on a live pending session is refused and leaves the session as it was.
verify_wrong_code :
    (s : PairingSession) (now : ℕ) (submitted : PairingCode) (device_id : Text)
    → s.state ≡ pending
    → now < s.expires_at
    → is_blank device_id ≡ false
    → equal s.code submitted ≡ false
    → verify s now submitted device_id ≡ (s, err (conflict_of pairing_code_mismatch))
unfolding verify
verify_wrong_code s now submitted device_id p t d e = ground arith

-- The call that a consumed session must have seen: a Verify with the session's code, for a named
-- device, before the expiry.
abbrev Proves : PairingSession → Call → Type 0
Proves s (expiring now) = ⊥
Proves s (verifying now submitted device_id) =
    (now < s.expires_at) × (is_blank device_id ≡ false) × (equal s.code submitted ≡ true)
Proves s (consuming now) = ⊥

abbrev pub Saw : PairingSession → List Call → Type 0
Saw s [] = ⊥
Saw s (c ∷ cs) = Proves s c ⊎ Saw s cs

-- What no call changes.
apply_keeps :
    (s : PairingSession) (c : Call)
    → ((apply s c).code ≡ s.code) × ((apply s c).expires_at ≡ s.expires_at)
unfolding apply expire_at verify consume
apply_keeps s (expiring now) = ground arith
apply_keeps s (verifying now submitted device_id) = ground arith
apply_keeps s (consuming now) = ground arith

apply_pending :
    (s : PairingSession) (c : Call)
    → s.state ≡ pending
    → Proves s c ⊎ (((apply s c).state ≡ pending) ⊎ ((apply s c).state ≡ expired))
unfolding apply expire_at verify consume
apply_pending s (expiring now) p = ground arith
apply_pending s (verifying now submitted device_id) p = ground arith
apply_pending s (consuming now) p = ground arith

Saw-keeps :
    (s t : PairingSession) (cs : List Call)
    → t.code ≡ s.code
    → t.expires_at ≡ s.expires_at
    → Saw t cs
    → Saw s cs
Saw-keeps s t [] c e h = h
Saw-keeps s t (expiring now ∷ cs) c e h = elim h [
  | inl p ↦ absurd p
  | inr q ↦ inr (Saw-keeps s t cs c e q)
]
Saw-keeps s t (verifying now submitted device_id ∷ cs) c e h = elim h [
  | inl p ↦ inl (rw (← e) p.0, p.1, rw (← c) p.2)
  | inr q ↦ inr (Saw-keeps s t cs c e q)
]
Saw-keeps s t (consuming now ∷ cs) c e h = elim h [
  | inl p ↦ absurd p
  | inr q ↦ inr (Saw-keeps s t cs c e q)
]

-- A pending session ends as verified or consumed only if among the calls there was a Verify with
-- its own code, for a named device and before its expiry.
pub consumed_needs_verify :
    (s : PairingSession) (cs : List Call)
    → s.state ≡ pending
    → ((run s cs).state ≡ verified) ⊎ ((run s cs).state ≡ consumed)
    → Saw s cs
unfolding run
consumed_needs_verify s [] p h = ground arith
consumed_needs_verify s (c ∷ cs) p h = elim (apply_pending s c p) [
  | inl now ↦ inl now
  | inr (inl still) ↦ inr (
      Saw-keeps s (apply s c) cs (apply_keeps s c).0 (apply_keeps s c).1
        (consumed_needs_verify (apply s c) cs still h))
  | inr (inr over) ↦
      let same : run (apply s c) cs ≡ apply s c = run-terminal (apply s c) cs (inr over) in
      let gone : (run (apply s c) cs).state ≡ expired = rw same over in ground arith
]

-- VerifyAndConsume returns a session only if it is the one found, pending, with the given code and a
-- live window, and the device is named; it is then consumed, with the device recorded, and both the
-- save and the insert of the device have succeeded.
pub verify_and_consume_lem :
    (found : Result PairingSession) (save : PairingSession → Result (Unit {0}))
    (insert : Text → Text → Result (Unit {0})) (code : PairingCode)
    (device_id label device_class : Text) (now : ℕ) (t : PairingSession)
    → verify_and_consume found save insert code device_id label device_class now ≡ ok t
    → (s : PairingSession) × (found ≡ ok s)
      × (s.state ≡ pending)
      × (now < s.expires_at)
      × (equal s.code code ≡ true)
      × (is_blank device_id ≡ false)
      × (t ≡ record s { device_id = some device_id; state = consumed })
      × (save t ≡ ok tt)
      × (insert device_id label ≡ ok tt)
unfolding verify_and_consume
verify_and_consume_lem (err e) save insert code device_id label device_class now t h = ground arith
verify_and_consume_lem (ok s) save insert code device_id label device_class now t h = (
  s,
  refl,
  ground arith,
  ground arith,
  ground arith,
  ground arith,
  ground arith,
  ground arith,
  ground arith,
)
