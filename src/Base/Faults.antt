-- ===== src/Base/Faults.antt =====
-- A computation that returns, or that stops at a fault: an assertion that fails, a null pointer
-- that is read, an access outside a span, an iterator whose entry is gone, bounds of `std::clamp` in
-- the wrong order, or a loop that runs out of the model's fuel.
use mathlib.Core.Path.{◌≡◌, ap}
use mathlib.Core.Bool.{Bool, true, false}
use mstack_cpp.Base.Tests.{if◌then◌else◌}

pub data Fault : Type 0 where
  assertion null_deref out_of_bounds out_of_fuel dangling bad_bounds : Fault

pub data Result {ℓ} (A : Type ℓ) : Type ℓ where
  ok : A → Result A
  fault : Fault → Result A

-- A value is handed on; a fault ends the computation.
infixl 5 ◌>>=◌
abbrev pub ◌>>=◌ {ℓ κ} : {A : Type ℓ} {B : Type κ} (m : Result A) (next : A → Result B) → Result B
ok value >>= next = next value
fault why >>= next = fault why

-- What follows a computation that need not return a value.
infixl 5 ◌>>◌
abbrev pub ◌>>◌ {κ} : {B : Type κ} → Result (Unit {0}) → Result B → Result B
first >> rest = first >>= (λ done. rest)

-- `assert(b)`.
abbrev pub assert : Bool → Result (Unit {0})
assert true = ok tt
assert false = fault assertion

-- `P` holds of what a computation returns, if it returns.
abbrev pub Holds {ℓ κ} : {A : Type ℓ} → (A → Type κ) → Result A → Type κ
Holds P (ok a) = P a
Holds P (fault e) = Unit

pub Holds->>= {ℓ κ μ ν} :
    {A : Type ℓ} {B : Type κ} (P : A → Type μ) (Q : B → Type ν) (m : Result A) (f : A → Result B)
    → Holds P m
    → ((a : A) → P a → Holds Q (f a))
    → Holds Q (m >>= f)
Holds->>= P Q (ok a) f h k = k a h
Holds->>= P Q (fault e) f h k = tt

pub Holds-map {ℓ κ μ} :
    {A : Type ℓ} (P : A → Type κ) (Q : A → Type μ) (m : Result A)
    → Holds P m
    → ((a : A) → P a → Q a)
    → Holds Q m
Holds-map P Q (ok a) h k = k a h
Holds-map P Q (fault e) h k = tt

pub Holds-any {ℓ} : {A : Type ℓ} (m : Result A) → Holds (λ a. Unit {0}) m
Holds-any (ok a) = tt
Holds-any (fault e) = tt

-- Where the first step gives nothing that the rest relies on.
pub Holds-after {ℓ κ μ} :
    {A : Type ℓ} {B : Type κ} (Q : B → Type μ) (m : Result A) (f : A → Result B)
    → ((a : A) → Holds Q (f a))
    → Holds Q (m >>= f)
Holds-after Q (ok a) f k = k a
Holds-after Q (fault e) f k = tt

pub Holds-if {ℓ κ} :
    {A : Type ℓ} (P : A → Type κ) (b : Bool) (m n : Result A)
    → Holds P m
    → Holds P n
    → Holds P (if b then m else n)
Holds-if P true m n h k = h
Holds-if P false m n h k = k

-- Computations that return the same return the same value.
abbrev value_or {ℓ} : {A : Type ℓ} → A → Result A → A
value_or a (ok b) = b
value_or a (fault e) = a

pub ok_injective {ℓ} : {A : Type ℓ} {a b : A} → ok a ≡ ok b → a ≡ b
ok_injective {a = a} h = ap (value_or a) h
