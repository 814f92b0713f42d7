-- ===== src/Result.antt =====
-- The outcome of a Python call: a value or a raised exception.
use zowpy.Prelude.{◌≡◌, refl, ◌⊎◌, inl, inr}

-- One constructor for each exception class that the modelled code tells apart. `exception` is a
-- plain `Exception`; `connection_error` is the class of core/connection.py, and
-- `builtin_connection_error` the built-in one of that name. `not_a_byte` is the ValueError of turning a list with a number that is no byte into
-- `bytes` or a `bytearray`; `out_of_fuel` has no counterpart in the program.
pub data Error : Type 0 where
  index_error value_error attribute_error key_error runtime_error exception : Error
  decrypt_error decode_error zlib_error cancelled timeout connection_error handshake_failed
        builtin_connection_error not_a_byte out_of_fuel :
      Error

pub data Result {ℓ} (A : Type ℓ) : Type ℓ where
  ok : A → Result A
  err : Error → Result A

abbrev pub bind {ℓ κ} : {A : Type ℓ} {B : Type κ} → Result A → (A → Result B) → Result B
bind (ok a) f = f a
bind (err e) f = err e

pub bind-eq-ok {ℓ κ} :
    {A : Type ℓ} {B : Type κ} (m : Result A) (f : A → Result B) {b : B}
    → bind m f ≡ ok b
    → (a : A) × (m ≡ ok a) × (f a ≡ ok b)
bind-eq-ok (ok a) f h = (a, refl, h)
bind-eq-ok (err e) f h = cc

pub Result-cases {ℓ} :
    {A : Type ℓ} (r : Result A) → ((e : Error) × (r ≡ err e)) ⊎ ((a : A) × (r ≡ ok a))
Result-cases (err e) = inl (e, refl)
Result-cases (ok a) = inr (a, refl)
