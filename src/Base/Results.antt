-- ===== src/Base/Results.antt =====
-- Exceptions as values.
use mathlib.Core.Path.{◌≡◌, refl}
use mathlib.Core.Logic.{◌⊎◌, inl, inr, ◌≢◌}
use mathlib.Core.Bool.{Bool, true, false}
use mathlib.Core.List.{List}
use Prim.Native.Nat.{ℕ}

-- How a script stops early. `exited` is `sys.exit` or `ArgumentParser.error`, with its message;
-- `out_of_range` is an `IndexError` or `struct.error`; `bad_value` is a `TypeError` or
-- `AttributeError`, from a value of the wrong type. `os_error` has the path, `command_failed` is a
-- `CalledProcessError`, `timed_out` a `TimeoutError`.
pub data Fault : Type 0 where
  exited : List ℕ → Fault
  value_error : List ℕ → Fault
  runtime_error : List ℕ → Fault
  assertion : List ℕ → Fault
  key_error : List ℕ → Fault
  os_error : List ℕ → Fault
  command_failed : List ℕ → Fault
  timed_out : List ℕ → Fault
  out_of_range : Fault
  bad_value : Fault

pub data Result {ℓ} (A : Type ℓ) : Type ℓ where
  err : Fault → Result A
  ok : A → Result A

infixl 5 ◌>>=◌ ◌>>◌
abbrev pub ◌>>=◌ {ℓ κ} : {A : Type κ} {B : Type ℓ} → Result A → (A → Result B) → Result B
err fault >>= next = err fault
ok a >>= next = next a

abbrev pub ◌>>◌ {ℓ} : {B : Type ℓ} → Result (Unit {0}) → Result B → Result B
first >> second = first >>= λ _. second

-- `if not b: raise e`
abbrev pub require : Bool → Fault → Result (Unit {0})
require false fault = err fault
require true fault = ok tt

pub >>=-eq-ok {ℓ κ} :
    {A : Type κ} {B : Type ℓ} (m : Result A) (next : A → Result B) {b : B}
    → (m >>= next) ≡ ok b
    → (a : A) × (m ≡ ok a) × (next a ≡ ok b)
>>=-eq-ok (err fault) next h = cc
>>=-eq-ok (ok a) next h = (a, refl, h)

pub require-eq-ok : (b : Bool) (e : Fault) → require b e ≡ ok tt → b ≡ true
require-eq-ok true e h = refl
require-eq-ok false e h = cc

pub >>-eq-ok {ℓ} :
    {B : Type ℓ} (b : Bool) (e : Fault) (k : Result B) {r : B}
    → (require b e >> k) ≡ ok r
    → (b ≡ true) × (k ≡ ok r)
>>-eq-ok true e k h = (refl, h)
>>-eq-ok false e k h = cc

pub Result-cases {ℓ} :
    {A : Type ℓ} (r : Result A) → ((a : A) × (r ≡ ok a)) ⊎ ((e : Fault) × (r ≡ err e))
Result-cases (ok a) = inl (a, refl)
Result-cases (err e) = inr (e, refl)

pub ok-inj {ℓ} : {A : Type ℓ} {a b : A} → ok a ≡ ok b → a ≡ b
ok-inj h = cc

pub err≢ok {ℓ} : {A : Type ℓ} {a : A} {fault : Fault} → err fault ≢ ok a
err≢ok h = cc
