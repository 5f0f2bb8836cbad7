-- ===== src/Common/Results.antt =====
-- Code that may throw returns a `Result`; `E` is what is thrown.
use mathlib.Core.Path.{◌≡◌, refl, ap}
use mathlib.Core.Logic.{◌⊎◌, inl, inr}
use mathlib.Core.Bool.{Bool, true, false}
use mathlib.Core.Option.{Option, none, some}

pub data Result {ℓ κ} (E : Type ℓ) (A : Type κ) : Type (ℓ ⊔ κ) where
  ok : A → Result E A
  err : E → Result E A

infixl 5 ◌>>=◌ ◌>>◌
abbrev pub ◌>>=◌ {ℓ κ μ} :
    {E : Type ℓ} {A : Type κ} {B : Type μ} → Result E A → (A → Result E B) → Result E B
ok a >>= f = f a
err e >>= f = err e

abbrev pub ◌>>◌ {ℓ κ} : {E : Type ℓ} {B : Type κ} → Result E (Unit {0}) → Result E B → Result E B
m >> k = m >>= λ _. k

-- `if (!test) throw e`
abbrev pub guard {ℓ} : {E : Type ℓ} → Bool → E → Result E (Unit {0})
guard true e = ok tt
guard false e = err e

-- `try { return some } catch { return null }`
abbrev pub to_option {ℓ κ} : {E : Type ℓ} {A : Type κ} → Result E A → Option A
to_option (ok a) = some a
to_option (err e) = none

-- `a ?? b`
abbrev pub or_else {ℓ} : {A : Type ℓ} → Option A → A → A
or_else none b = b
or_else (some a) b = a

-- What is known when both parts of a bind succeed.
pub >>=-eq-ok {ℓ κ μ} :
    {E : Type ℓ} {A : Type κ} {B : Type μ} (r : Result E A) (next : A → Result E B) {y : B}
    → (r >>= next) ≡ ok y
    → (x : A) × (r ≡ ok x) × (next x ≡ ok y)
>>=-eq-ok (err thrown) next e = cc
>>=-eq-ok (ok x) next e = (x, refl, e)

pub ok_injective {ℓ κ} :
    {E : Type ℓ} {A : Type κ} {a b : A} → ◌≡◌ {A = Result E A} (ok a) (ok b) → a ≡ b
ok_injective h = cc

pub err_injective {ℓ κ} :
    {E : Type ℓ} {A : Type κ} {a b : E} → ◌≡◌ {A = Result E A} (err a) (err b) → a ≡ b
err_injective h = cc

-- What is known when a guarded computation succeeds.
pub guard-eq-ok {ℓ κ} :
    {E : Type ℓ} {B : Type κ} (test : Bool) (e : E) (next : Result E B) {y : B}
    → (guard test e >> next) ≡ ok y
    → (test ≡ true) × (next ≡ ok y)
guard-eq-ok true e next h = (refl, h)
guard-eq-ok false e next h = cc

-- Where a sequence of two computations fails.
pub >>=-eq-err {ℓ κ μ} :
    {E : Type ℓ} {A : Type κ} {B : Type μ} (r : Result E A) (next : A → Result E B) {e : E}
    → (r >>= next) ≡ err e
    → (r ≡ err e) ⊎ ((x : A) × (r ≡ ok x) × (next x ≡ err e))
>>=-eq-err (err thrown) next h = inl (ap err (err_injective h))
>>=-eq-err (ok x) next h = inr (x, refl, h)

pub guard-eq-err {ℓ κ} :
    {E : Type ℓ} {B : Type κ} (test : Bool) (thrown : E) (next : Result E B) {e : E}
    → (guard test thrown >> next) ≡ err e
    → ((test ≡ false) × (thrown ≡ e)) ⊎ ((test ≡ true) × (next ≡ err e))
guard-eq-err true thrown next h = inr (refl, h)
guard-eq-err false thrown next h = inl (refl, err_injective h)

pub guard-ok {ℓ} : {E : Type ℓ} (test : Bool) (e : E) → guard test e ≡ ok tt → test ≡ true
guard-ok true e h = refl
guard-ok false e h = cc

pub guard-err {ℓ} :
    {E : Type ℓ} (test : Bool) (thrown : E) {e : E}
    → guard test thrown ≡ err e
    → (test ≡ false) × (thrown ≡ e)
guard-err true thrown h = cc
guard-err false thrown h = (refl, err_injective h)

pub Result-cases {ℓ κ} :
    {E : Type ℓ} {A : Type κ} (r : Result E A) → ((a : A) × (r ≡ ok a)) ⊎ ((e : E) × (r ≡ err e))
Result-cases (ok a) = inl (a, refl)
Result-cases (err e) = inr (e, refl)
