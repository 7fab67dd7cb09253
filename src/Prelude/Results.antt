-- ===== src/Prelude/Results.antt =====
-- A call that may throw: the message of the error, or the value.
use Prim.Native.String.{String}
use mathlib.Core.Path.{◌≡◌, refl}
use mathlib.Core.Logic.{◌⊎◌, inl, inr}
use mathlib.Core.Bool.{Bool, true, false}

pub data Result {ℓ} (A : Type ℓ) : Type ℓ where
  err : String → Result A
  ok : A → Result A

infixl 4 ◌>>=◌ ◌>>◌
-- A throw ends the block with its message.
abbrev pub ◌>>=◌ {κ ℓ} : {B : Type κ} {A : Type ℓ} → Result B → (B → Result A) → Result A
err message >>= next = err message
ok value >>= next = next value

abbrev pub ◌>>◌ {ℓ} : {A : Type ℓ} → Result (Unit {0}) → Result A → Result A
err message >> rest = err message
ok _ >> rest = rest

-- `if (!test) throw new Error(message)`
abbrev pub guard : Bool → String → Result (Unit {0})
guard false message = err message
guard true message = ok tt

pub ok-injective {ℓ} : {A : Type ℓ} {a b : A} → ok a ≡ ok b → a ≡ b
ok-injective h = cc

pub Result-cases {ℓ} :
    {A : Type ℓ} (r : Result A) → ((a : A) × (r ≡ ok a)) ⊎ ((e : String) × (r ≡ err e))
Result-cases (ok a) = inl (a, refl)
Result-cases (err e) = inr (e, refl)

-- What a block that returned has done.
pub bind-ok {κ ℓ} :
    {B : Type κ} {A : Type ℓ} (r : Result B) (next : B → Result A) {a : A}
    → (r >>= next) ≡ ok a
    → (b : B) × (r ≡ ok b) × (next b ≡ ok a)
bind-ok (ok b) next h = (b, refl, h)
bind-ok (err e) next h = absurd (cc h)

pub then-ok {ℓ} :
    {A : Type ℓ} (first : Result (Unit {0})) (rest : Result A) {a : A}
    → (first >> rest) ≡ ok a
    → (first ≡ ok tt) × (rest ≡ ok a)
then-ok (ok tt) rest h = (refl, h)
then-ok (err e) rest h = absurd (cc h)
