-- ===== src/Merging/Run.antt =====
-- Loops on fuel that may fail: `none` means that the fuel ran out.
use alexandryn.Base.{◌≡◌, refl, Bool, true, false, Option, none, some, Error, Result, ok, err}

abbrev pub Run {ℓ} : Type ℓ → Type ℓ
Run A = Option (Result A)

abbrev pub pure {ℓ} : {A : Type ℓ} → A → Run A
pure a = some (ok a)

abbrev pub fail {ℓ} : {A : Type ℓ} → Error → Run A
fail e = some (err e)

abbrev pub lift {ℓ} : {A : Type ℓ} → Result A → Run A
lift r = some r

infixl 5 ◌>>=◌ ◌>>◌
abbrev pub ◌>>=◌ {ℓ κ} : {A : Type ℓ} {B : Type κ} → Run A → (A → Run B) → Run B
none >>= next = none
some (err failure) >>= next = some (err failure)
some (ok value) >>= next = next value

abbrev pub ◌>>◌ {ℓ} : {B : Type ℓ} → Run (Unit {0}) → Run B → Run B
m >> k = m >>= λ _. k

abbrev pub fail_if : Bool → Error → Run (Unit {0})
fail_if true e = fail e
fail_if false e = pure tt

-- Inversion of a successful bind.
pub >>=-eq-pure {ℓ κ} :
    {A : Type ℓ} {B : Type κ} (m : Run A) (f : A → Run B) {b : B}
    → (m >>= f) ≡ some (ok b)
    → (a : A) × (m ≡ some (ok a)) × (f a ≡ some (ok b))
>>=-eq-pure none f h = cc
>>=-eq-pure (some (ok a)) f h = (a, refl, h)
>>=-eq-pure (some (err e)) f h = cc

-- Inversion of a guard.
pub fail_if-eq-pure {ℓ} :
    {B : Type ℓ} (b : Bool) (e : Error) (m : Run B) {r : B}
    → (fail_if b e >> m) ≡ some (ok r)
    → (b ≡ false) × (m ≡ some (ok r))
fail_if-eq-pure true e m h = cc
fail_if-eq-pure false e m h = (refl, h)
