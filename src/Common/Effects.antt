-- ===== src/Common/Effects.antt =====
-- The outcome of a call of the program: a value, a C++ exception, undefined behaviour, or a call of
-- the kernel that never comes back.
use mathlib.Core.Path.{◌≡◌, refl}
use mathlib.Core.Bool.{Bool, true, false}
use lxc_http_server.Common.Tests.{if◌then◌else◌}
use mathlib.Core.Option.{Option, none, some}

-- `SocketClosed` is the class of include/Error.h, the others are the standard library's.
pub data Exception : Type 0 where
  socket_closed runtime_error invalid_argument out_of_range bad_array_new_length : Exception

-- What a handler `catch (const std::exception &)` takes: `SocketClosed` derives from no class.
unfoldable pub is_std_exception : Exception → Bool
is_std_exception socket_closed = false
is_std_exception _ = true

-- Undefined behaviour, by its kind.
pub data Fault : Type 0 where
  out_of_bounds null_pointer uninitialised bad_iterator empty_container int_overflow use_after_free
        not_owner data_race :
      Fault

-- `blocks`: a call of the kernel that does not return. `out_of_fuel`: the model's loop bound was
-- too small, which theorems exclude.
pub data Outcome {ℓ} (A : Type ℓ) : Type ℓ where
  ok : A → Outcome A
  throws : Exception → Outcome A
  fault : Fault → Outcome A
  blocks out_of_fuel : Outcome A

infixl 5 ◌>>=◌ ◌>>◌
abbrev pub ◌>>=◌ {ℓ κ} : {A : Type ℓ} {B : Type κ} → Outcome A → (A → Outcome B) → Outcome B
throws e >>= next = throws e
fault k >>= next = fault k
blocks >>= next = blocks
out_of_fuel >>= next = out_of_fuel
ok x >>= next = next x

abbrev pub ◌>>◌ {ℓ} : {B : Type ℓ} (test : Outcome (Unit {0})) (next : Outcome B) → Outcome B
test >> next = test >>= λ _. next

abbrev pub check : Bool → Fault → Outcome (Unit {0})
check true k = ok tt
check false k = fault k

abbrev pub or_fault {ℓ} : {A : Type ℓ} → Option A → Fault → Outcome A
or_fault none k = fault k
or_fault (some a) k = ok a

-- Inversion of a bind that came to a value.
pub >>=-eq-ok {ℓ κ} :
    {A : Type ℓ} {B : Type κ} {result : B} (call : Outcome A) (next : A → Outcome B)
    → (do x ← call; next x) ≡ ok result
    → (x : A) × (call ≡ ok x) × (next x ≡ ok result)
>>=-eq-ok (throws e) next h = cc
>>=-eq-ok (fault k) next h = cc
>>=-eq-ok blocks next h = cc
>>=-eq-ok out_of_fuel next h = cc
>>=-eq-ok (ok x) next h = (x, refl, h)

-- A result that is not for want of fuel; of a value, that `P` holds.
abbrev pub Ends {ℓ} : {A : Type ℓ} → (A → Type 0) → Outcome A → Type 0
Ends P (ok a) = P a
Ends P out_of_fuel = ⊥
Ends P (throws e) = Unit
Ends P (fault k) = Unit
Ends P blocks = Unit

pub Ends-bind {ℓ κ} :
    {A : Type ℓ} {B : Type κ} (P : A → Type 0) (Q : B → Type 0) (r : Outcome A) (k : A → Outcome B)
    → Ends P r
    → ((a : A) → P a → Ends Q (k a))
    → Ends Q (r >>= k)
Ends-bind P Q (ok a) k h f = f a h
Ends-bind P Q out_of_fuel k h f = h
Ends-bind P Q (throws e) k h f = tt
Ends-bind P Q (fault e) k h f = tt
Ends-bind P Q blocks k h f = tt

pub Ends-mono {ℓ} :
    {A : Type ℓ} (P Q : A → Type 0) (r : Outcome A) → Ends P r → ((a : A) → P a → Q a) → Ends Q r
Ends-mono P Q (ok a) h f = f a h
Ends-mono P Q out_of_fuel h f = h
Ends-mono P Q (throws e) h f = tt
Ends-mono P Q (fault e) h f = tt
Ends-mono P Q blocks h f = tt

-- Of a value that it comes to, that `P` holds.
abbrev pub Yields {ℓ} : {A : Type ℓ} → (A → Type 0) → Outcome A → Type 0
Yields P (ok a) = P a
Yields P (throws e) = Unit
Yields P (fault k) = Unit
Yields P blocks = Unit
Yields P out_of_fuel = Unit

pub Yields-bind {ℓ κ} :
    {A : Type ℓ} {B : Type κ} (P : A → Type 0) (Q : B → Type 0) (r : Outcome A) (k : A → Outcome B)
    → Yields P r
    → ((a : A) → P a → Yields Q (k a))
    → Yields Q (r >>= k)
Yields-bind P Q (ok a) k h f = f a h
Yields-bind P Q (throws e) k h f = tt
Yields-bind P Q (fault e) k h f = tt
Yields-bind P Q blocks k h f = tt
Yields-bind P Q out_of_fuel k h f = tt

pub Yields-any {ℓ κ} :
    {A : Type ℓ} {B : Type κ} (Q : B → Type 0) (r : Outcome A) (k : A → Outcome B)
    → ((a : A) → Yields Q (k a))
    → Yields Q (r >>= k)
Yields-any Q (ok a) k f = f a
Yields-any Q (throws e) k f = tt
Yields-any Q (fault e) k f = tt
Yields-any Q blocks k f = tt
Yields-any Q out_of_fuel k f = tt

pub Yields-if {ℓ} :
    {A : Type ℓ} (P : A → Type 0) (b : Bool) (r s : Outcome A)
    → Yields P r
    → Yields P s
    → Yields P (if b then r else s)
Yields-if P true r s h k = h
Yields-if P false r s h k = k

pub Yields-and {ℓ κ} :
    {A : Type ℓ} {B : Type κ} (P : A → Type 0) (Q : B → Type 0) (R : A → Type 0) (k : A → Outcome B)
    (r : Outcome A)
    → Yields P r
    → Yields R r
    → ((a : A) → P a → R a → Yields Q (k a))
    → Yields Q (r >>= k)
Yields-and P Q R k (ok a) h g f = f a h g
Yields-and P Q R k (throws e) h g f = tt
Yields-and P Q R k (fault e) h g f = tt
Yields-and P Q R k blocks h g f = tt
Yields-and P Q R k out_of_fuel h g f = tt

pub Yields-mono {ℓ} :
    {A : Type ℓ} (P Q : A → Type 0) (r : Outcome A)
    → Yields P r
    → ((a : A) → P a → Q a)
    → Yields Q r
Yields-mono P Q (ok a) h f = f a h
Yields-mono P Q (throws e) h f = tt
Yields-mono P Q (fault e) h f = tt
Yields-mono P Q blocks h f = tt
Yields-mono P Q out_of_fuel h f = tt
