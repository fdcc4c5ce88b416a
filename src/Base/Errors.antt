-- ===== src/Base/Errors.antt =====
-- internal/domain/error.go: the closed set of failure categories, the error value that domain
-- operations return, and Go's pair of a value and an error.
use mathlib.Core.Path.{◌≡◌, refl}
use mathlib.Core.Bool.{Bool, true, false}

pub data Category : Type 0 where
  not_found invalid_input unauthorized conflict unavailable internal : Category

-- The errors.Is targets of device_pairing.go; `no_sentinel` is a nil `Err` field.
pub data Sentinel : Type 0 where
  invalid_pairing_code pairing_expired pairing_wrong_state : Sentinel
  pairing_code_mismatch device_revoked device_already_revoked : Sentinel
  no_sentinel : Sentinel

-- *domain.Error without its Message, which only people read.
pub record Error : Type 0 where
  pub category : Category
  pub sentinel : Sentinel

abbrev pub error : Category → Error
error c = record { category = c; sentinel = no_sentinel }

-- `(A, error)`, with exactly one of the two.
pub data Result {ℓ} (A : Type ℓ) : Type ℓ where
  err : Error → Result A
  ok : A → Result A

-- What follows `if err != nil { return err }`, with the value or without it.
infixl 5 ◌>>=◌
abbrev pub ◌>>=◌ {κ ℓ} : {A : Type κ} {B : Type ℓ} → Result A → (A → Result B) → Result B
err failure >>= next = err failure
ok value >>= next = next value

infixl 5 ◌>>◌
abbrev pub ◌>>◌ {κ} : {B : Type κ} → Result (Unit {0}) → Result B → Result B
check >> next = check >>= (λ done. next)

-- `if bad { return err }`
abbrev pub reject_if : Bool → Error → Result (Unit {0})
reject_if true e = err e
reject_if false e = ok tt

-- Inversion of a successful bind.
pub >>=-eq-ok {κ ℓ} :
    {A : Type κ} {B : Type ℓ} (r : Result A) (next : A → Result B) {b : B}
    → (r >>= next) ≡ ok b
    → (value : A) × (r ≡ ok value) × (next value ≡ ok b)
>>=-eq-ok (err failure) next h = cc
>>=-eq-ok (ok value) next h = (value, refl, h)

pub reject_if-ok : (b : Bool) (e : Error) {u : Unit {0}} → reject_if b e ≡ ok u → b ≡ false
reject_if-ok true e h = cc
reject_if-ok false e h = refl
