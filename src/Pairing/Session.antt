-- ===== src/Pairing/Session.antt =====
-- internal/domain/device_pairing.go, PairingSession, and the transaction of
-- internal/persistence/postgres/pairing_verify.go. A method returns the session that it leaves
-- beside its error, since a refused call may still expire the session. A time is a number of
-- nanoseconds; a duration is signed.
mod Lifecycle
mod Persistence
mod Samples
use alexandryn.Base.{
  ℕ, ◌+◌, ◌-◌, Bool, true, false, not, ◌&&◌, ◌||◌, Option, none, some, ltb, ◌==◌, if◌then◌else◌,
  length, ℤ, pos, pos_part, neg_part, sub_ℕ, ltb_ℤ, leb_ℤ, Text, lit, text_eq, trim_space, is_empty,
  is_blank, invalid_input, conflict, internal, Sentinel, pairing_expired, pairing_wrong_state,
  pairing_code_mismatch, Error, error, Result, ok, err, ◌>>=◌, ◌>>◌, reject_if,
}
use alexandryn.Pairing.Code.{PairingCode, pairing_code_len, equal}

-- A Go string type: any other text is a value of it too.
pub data PairingState : Type 0 where
  pending verified consumed expired : PairingState
  unknown_state : Text → PairingState

pub valid : PairingState → Bool
valid (unknown_state t) = false
valid s = true

-- `==` of two states
state_eq : PairingState → PairingState → Bool
state_eq pending pending = true
state_eq verified verified = true
state_eq consumed consumed = true
state_eq expired expired = true
state_eq (unknown_state s) (unknown_state t) = text_eq s t
state_eq _ _ = false

-- 5 * time.Minute
abbrev pub max_pairing_ttl : ℕ
max_pairing_ttl = 300_000_000_000

pub record PairingSession : Type 0 where
  pub id : Text
  pub initiated_by : Text
  pub code : PairingCode
  pub state : PairingState
  pub created_at : ℕ
  pub expires_at : ℕ
  pub device_id : Option Text

-- now.Add(ttl), at a ttl that was checked to be positive
abbrev add_duration : ℕ → ℤ → ℕ
add_duration now d = now + pos_part d - neg_part d

-- `ttl <= 0 || ttl > maxPairingTTL`
pub ttl_out_of_range : ℤ → Bool
ttl_out_of_range ttl = leb_ℤ ttl (pos 0) || ltb_ℤ (pos max_pairing_ttl) ttl

pub new_pairing_session : Text → Text → PairingCode → ℤ → ℕ → Result PairingSession
new_pairing_session id initiated_by code ttl now = do
  reject_if (is_blank id) (error invalid_input)
  reject_if (is_blank initiated_by) (error invalid_input)
  reject_if (ttl_out_of_range ttl) (error invalid_input)
  ok (record {
    id = id;
    initiated_by = initiated_by;
    code = code;
    state = pending;
    created_at = now;
    expires_at = add_duration now ttl;
    device_id = none;
  })

-- `deviceID != nil && strings.TrimSpace(*deviceID) == ""`
abbrev pub blank_device : Option Text → Bool
blank_device none = false
blank_device (some d) = is_blank d

-- The switch on state and device ID: `true` where they disagree.
pub state_device_mismatch : PairingState → Option Text → Bool
state_device_mismatch pending (some d) = true
state_device_mismatch verified none = true
state_device_mismatch consumed none = true
state_device_mismatch _ _ = false

pub rehydrate_pairing_session :
    Text → Text → PairingCode → PairingState → ℕ → ℕ → Option Text → Result PairingSession
rehydrate_pairing_session id initiated_by code state created_at expires_at device_id = do
  reject_if (is_blank id || is_blank initiated_by) (error internal)
  reject_if (not (length code.b == pairing_code_len)) (error internal)
  reject_if (not (valid state)) (error internal)
  reject_if (ttl_out_of_range (sub_ℕ expires_at created_at)) (error internal)
  reject_if (blank_device device_id) (error internal)
  reject_if (state_device_mismatch state device_id) (error internal)
  ok (record {
    id = id;
    initiated_by = initiated_by;
    code = code;
    state = state;
    created_at = created_at;
    expires_at = expires_at;
    device_id = device_id;
  })

-- `!now.Before(s.expiresAt)`
abbrev is_expired : PairingSession → ℕ → Bool
is_expired s now = not (ltb now s.expires_at)

terminal : PairingState → Bool
terminal consumed = true
terminal expired = true
terminal _ = false

pub expire_at : PairingSession → ℕ → PairingSession
unfolding state_eq
expire_at s now =
    if not (state_eq s.state pending) && not (state_eq s.state verified)
    then s
    else if is_expired s now
    then record s { state = expired }
    else s

abbrev pub conflict_of : Sentinel → Error
conflict_of e = record { category = conflict; sentinel = e }

check_advanceable : PairingSession → ℕ → PairingState → PairingSession × Result (Unit {0})
unfolding terminal state_eq
check_advanceable s now expected =
    if terminal s.state
    then (s, err (conflict_of pairing_wrong_state))
    else if is_expired s now
    then (record s { state = expired }, err (conflict_of pairing_expired))
    else if not (state_eq s.state expected)
    then (s, err (conflict_of pairing_wrong_state))
    else (s, ok tt)

-- Verify after its preamble.
verify_checked : PairingSession → PairingCode → Text → PairingSession × Result (Unit {0})
verify_checked s submitted device_id =
    if is_blank device_id
    then (s, err (error internal))
    else if not (equal s.code submitted)
    then (s, err (conflict_of pairing_code_mismatch))
    else (record s { device_id = some device_id; state = verified }, ok tt)

-- `if err := s.checkAdvanceable(…); err != nil { return err }`, and then the rest.
abbrev and_then :
    PairingSession × Result (Unit {0})
    → (PairingSession → PairingSession × Result (Unit {0}))
    → PairingSession × Result (Unit {0})
and_then p rest = elim p.1 [ ok u ↦ rest p.0 | err e ↦ (p.0, err e) ]

pub verify : PairingSession → ℕ → PairingCode → Text → PairingSession × Result (Unit {0})
unfolding check_advanceable verify_checked
verify s now submitted device_id =
    and_then (check_advanceable s now pending) (λ t. verify_checked t submitted device_id)

pub consume : PairingSession → ℕ → PairingSession × Result (Unit {0})
unfolding check_advanceable
consume s now =
    and_then (check_advanceable s now verified) (λ t. (record t { state = consumed }, ok tt))

abbrev default_label : Text → Text → Text
default_label label device_class =
    if not (is_empty label)
    then label
    else if not (is_empty device_class)
    then device_class
    else lit "Device"

-- The transaction of VerifyAndConsume. `found` is the pending row that the repository locked, or
-- its error; `save` and `insert` are the repositories' writes. An error rolls back all of it.
pub verify_and_consume :
    Result PairingSession
    → (PairingSession → Result (Unit {0}))
    → (Text → Text → Result (Unit {0}))
    → PairingCode
    → Text
    → Text
    → Text
    → ℕ
    → Result PairingSession
unfolding verify consume
verify_and_consume found save insert code device_id label device_class now = do
  reject_if (ltb 100 (length (default_label (trim_space label) device_class))) (error invalid_input)
  session ← found
  let after = verify session now code device_id
  after.1
  let done = consume after.0 now
  done.1
  save done.0
  insert device_id label
  ok done.0
