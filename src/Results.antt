-- ===== src/Results.antt =====
-- Rust's `Result` with `?` as `do`, for the modules that return errors as values.
use parseable.Prelude.{◌≡◌, refl, Bool, true, false, Option, none, some, arith}

pub data Result {ℓ κ} (E : Type ℓ) (A : Type κ) : Type (ℓ ⊔ κ) where
  ok : A → Result E A
  err : E → Result E A

abbrev pub is_ok {ℓ κ} : {E : Type ℓ} {A : Type κ} → Result E A → Bool
is_ok (ok a) = true
is_ok (err e) = false

infixl 5 ◌>>=◌ ◌>>◌
abbrev pub ◌>>=◌ {ℓ κ μ} :
    {E : Type ℓ} {A : Type κ} {B : Type μ} → Result E A → (A → Result E B) → Result E B
ok a >>= k = k a
err e >>= k = err e

abbrev pub ◌>>◌ {ℓ μ} : {E : Type ℓ} {B : Type μ} → Result E (Unit {0}) → Result E B → Result E B
m >> k = m >>= λ _. k

-- An early return of an error where the test fails.
abbrev pub guard {ℓ} : {E : Type ℓ} → Bool → E → Result E (Unit {0})
guard true e = ok tt
guard false e = err e

abbrev pub ok_or {ℓ κ} : {E : Type ℓ} {A : Type κ} → Option A → E → Result E A
ok_or none e = err e
ok_or (some a) e = ok a

-- What a successful chain went through.
pub >>=-eq-ok {ℓ κ μ} :
    {E : Type ℓ} {A : Type κ} {B : Type μ} (m : Result E A) (k : A → Result E B) (b : B)
    → (m >>= k) ≡ ok b
    → (a : A) × (m ≡ ok a) × (k a ≡ ok b)
>>=-eq-ok (ok a) k b h = (a, refl, h)
>>=-eq-ok (err e) k b h = cc

pub >>-eq-ok {ℓ κ} :
    {E : Type ℓ} {A : Type κ} (m : Result E (Unit {0})) (rest : Result E A) (a : A)
    → (m >> rest) ≡ ok a
    → rest ≡ ok a
>>-eq-ok (ok u) rest a h = h
>>-eq-ok (err e) rest a h = cc

pub guard-eq-ok {ℓ κ} :
    {E : Type ℓ} {A : Type κ} (t : Bool) (e : E) (rest : Result E A) (a : A)
    → (guard t e >> rest) ≡ ok a
    → (t ≡ true) × (rest ≡ ok a)
guard-eq-ok true e rest a h = (refl, h)
guard-eq-ok false e rest a h = cc

pub ok_or-eq-ok {ℓ κ} :
    {E : Type ℓ} {A : Type κ} (o : Option A) (e : E) (a : A) → ok_or o e ≡ ok a → o ≡ some a
ok_or-eq-ok none e a h = cc
ok_or-eq-ok (some b) e a h = ground arith

pub ok_inj {ℓ κ} : {E : Type ℓ} {A : Type κ} (a b : A) → ◌≡◌ {A = Result E A} (ok a) (ok b) → a ≡ b
ok_inj a b h = cc h
