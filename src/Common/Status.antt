-- ===== src/Common/Status.antt =====
-- status.h: the error codes. A function that returns `BIMBLEOS_ALL_OK` or a negative code returns a
-- `Status`; one that returns a value or a negative code returns a `Result`.
use mathlib.Core.Path.{◌≡◌, refl}
use mathlib.Core.Logic.{◌⊎◌, inl, inr}

pub data Errno : Type 0 where
  eio einvarg enomem ebadpath efsnotus erdonly eunimp eistkn einformat : Errno

pub data Result {ℓ} (A : Type ℓ) : Type ℓ where
  ok : A → Result A
  err : Errno → Result A

abbrev pub Status : Type 0
Status = Result (Unit {0})

abbrev pub done : Status
done = ok tt

pub Result-cases {ℓ} :
    {A : Type ℓ} (r : Result A) → ((a : A) × (r ≡ ok a)) ⊎ ((e : Errno) × (r ≡ err e))
Result-cases (ok a) = inl (a, refl)
Result-cases (err e) = inr (e, refl)
