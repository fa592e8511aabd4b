-- ===== src/Base/Outcome.antt =====
-- What a C++ function that may not return gives back.
use mathlib.Core.Path.{◌≡◌, refl}

-- The exceptions that the program can throw or meet, an `assert` that fails, a read outside an
-- object (undefined behaviour), a call of `exit`, and `out_of_fuel`, which is no behaviour: the
-- model of a loop was given too little fuel.
pub data Fault : Type 0 where
  out_of_range invalid_argument length_error type_error assertion undefined exited out_of_fuel :
      Fault

pub data Result {ℓ} (A : Type ℓ) : Type ℓ where
  ok : A → Result A
  err : Fault → Result A

infixl 5 ◌>>=◌
abbrev pub ◌>>=◌ {ℓ κ} : {A : Type ℓ} {B : Type κ} → Result A → (A → Result B) → Result B
ok value >>= next = next value
err fault >>= next = err fault

-- A result that is no fault is a value.
pub ok_of-ne-err {ℓ} :
    {A : Type ℓ} (r : Result A) → ((f : Fault) → ¬ (r ≡ err f)) → (a : A) × (r ≡ ok a)
ok_of-ne-err (ok a) h = (a, refl)
ok_of-ne-err (err f) h = absurd (h f refl)

-- What a chain that has a value went through.
pub >>=-eq-ok {ℓ κ} :
    {A : Type ℓ} {B : Type κ} (first : Result A) (next : A → Result B) {last : B}
    → (first >>= next) ≡ ok last
    → (value : A) × (first ≡ ok value) × (next value ≡ ok last)
>>=-eq-ok (err fault) next reached = cc
>>=-eq-ok (ok value) next reached = (value, refl, reached)
