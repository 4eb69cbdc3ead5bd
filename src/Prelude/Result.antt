-- ===== src/Prelude/Result.antt =====
-- Python's exceptions as values: what a fallible call returns.
use Prim.Native.String.{String}
use mathlib.Core.Path.{◌≡◌, refl}
use mathlib.Core.Logic.{◌⊎◌, inl, inr}

-- The exceptions that the program raises or lets through. `final_error` is temporalio's
-- `ApplicationError` with `non_retryable=True`, and `library_error` one raised by a library that the
-- program calls.
pub data Exn : Type 0 where
  key_error : String → Exn
  type_error : String → Exn
  value_error : String → Exn
  runtime_error : String → Exn
  activity_error : String → Exn
  child_error : String → Exn
  import_error : String → Exn
  index_error : String → Exn
  not_implemented_error : String → Exn
  final_error : String → Exn
  library_error : String → Exn

pub data Result {ℓ} (A : Type ℓ) : Type ℓ where
  err : Exn → Result A
  ok : A → Result A

-- What follows a call, unless it raised.
infixl 10 ◌>>=◌
abbrev pub ◌>>=◌ {ℓ κ} : {X : Type ℓ} {Y : Type κ} → Result X → (X → Result Y) → Result Y
err e >>= next = err e
ok x >>= next = next x

-- A chain of calls that returned: what its first call returned, and what followed.
module _ {ℓ κ} {X : Type ℓ} {Y : Type κ} where
  pub >>=-eq-ok :
      (call : Result X) (next : X → Result Y) {y : Y}
      → (call >>= next) ≡ ok y
      → (x : X) × (call ≡ ok x) × (next x ≡ ok y)
  >>=-eq-ok (err e) next returned = cc
  >>=-eq-ok (ok x) next returned = (x, refl, returned)

-- To split on a computed result and keep the equation.
pub Result-cases {ℓ} :
    {A : Type ℓ} (r : Result A) → ((a : A) × (r ≡ ok a)) ⊎ ((e : Exn) × (r ≡ err e))
Result-cases (ok a) = inl (a, refl)
Result-cases (err e) = inr (e, refl)

pub ok-injective {ℓ} : {A : Type ℓ} {a b : A} → ok a ≡ ok b → a ≡ b
ok-injective h = cc
