-- ===== src/Base/Result.antt =====
-- Results of fallible code: the exceptions of packages/common/src/exceptions, with the run-time
-- errors that the services can meet.
use mathlib.Core.Path.{◌≡◌, refl}
use mathlib.Core.Bool.{Bool, true, false}
use mathlib.Core.Option.{Option, none, some}

-- The exception classes, without their messages. `duplicate_key` is the store's error 11000,
-- `broker_down` what a Kafka publish throws, `type_error` a property read of `undefined`.
pub data Failure : Type 0 where
  bad_request unauthorized forbidden not_found conflict too_many_requests : Failure
  duplicate_key broker_down type_error : Failure

pub data Result {ℓ} (A : Type ℓ) : Type ℓ where
  ok : A → Result A
  err : Failure → Result A

-- What follows a step runs only where the step has not thrown.
infixl 5 ◌>>◌ ◌>>=◌
abbrev pub ◌>>◌ {ℓ} : {A : Type ℓ} → Result (Unit {0}) → Result A → Result A
ok tt >> rest = rest
err thrown >> rest = err thrown

abbrev pub ◌>>=◌ {ℓ} : {X A : Type ℓ} → Result X → (X → Result A) → Result A
ok x >>= rest = rest x
err thrown >>= rest = err thrown

-- `if (c) throw e;`
abbrev pub throw_if : Bool → Failure → Result (Unit {0})
throw_if true e = err e
throw_if false e = ok tt

-- `if (!value) throw e;`
abbrev pub require {ℓ} : {A : Type ℓ} → Option A → Failure → Result A
require none e = err e
require (some a) e = ok a

-- Inversion of a successful chain.
pub throw_if-ok {ℓ} :
    {B : Type ℓ} (c : Bool) (e : Failure) (k : Result B) {b : B}
    → (throw_if c e >> k) ≡ ok b
    → (c ≡ false) × (k ≡ ok b)
throw_if-ok true e k h = cc
throw_if-ok false e k h = (refl, h)

pub >>-ok {ℓ} :
    {B : Type ℓ} (m : Result (Unit {0})) (k : Result B) {b : B} → (m >> k) ≡ ok b → k ≡ ok b
>>-ok (ok tt) k h = h
>>-ok (err e) k h = cc

pub >>-first {ℓ} :
    {B : Type ℓ} (m : Result (Unit {0})) (k : Result B) {b : B} → (m >> k) ≡ ok b → m ≡ ok tt
>>-first (ok tt) k h = refl
>>-first (err e) k h = cc

pub ok-injective {ℓ} : {A : Type ℓ} (a b : A) → ok a ≡ ok b → a ≡ b
ok-injective a b h = cc
