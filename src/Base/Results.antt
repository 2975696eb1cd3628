-- ===== src/Base/Results.antt =====
-- How a run of the C++ code ends: with a value, or by one of the ways in which it can stop.
use mathlib.Core.Bool.{Bool, true, false}

-- `assertion`: an `assert` fails (the library is built with assertions on). `undefined`: an
-- operation whose behaviour C++ leaves undefined. `out_of_bounds`: a read past the buffer.
-- `no_entry` and `not_supported`: the exceptions No_entry and Not_supported. `out_of_fuel` is no
-- behaviour of the code: a loop of the model ran out of rounds.
pub data Fault : Type 0 where
  assertion undefined out_of_bounds no_entry not_supported out_of_fuel : Fault

pub data Outcome {ℓ} (A : Type ℓ) : Type ℓ where
  ok : A → Outcome A
  err : Fault → Outcome A

-- `assert(b)`, and the like for the other faults.
abbrev pub guard : Bool → Fault → Outcome (Unit {0})
guard false fault = err fault
guard true fault = ok tt

-- A run, and what follows it if it does not stop.
infixl 5 ◌>>=◌
abbrev pub ◌>>=◌ {ℓ κ} :
    {A : Type ℓ} {B : Type κ} (run : Outcome A) (next : A → Outcome B) → Outcome B
err fault >>= next = err fault
ok value >>= next = next value

infixl 5 ◌>>◌
abbrev pub ◌>>◌ {ℓ} : {B : Type ℓ} (test : Outcome (Unit {0})) (next : Outcome B) → Outcome B
test >> next = test >>= λ _. next
