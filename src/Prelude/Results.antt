-- ===== src/Prelude/Results.antt =====
-- Python's exceptions as values, and the monad of code that may raise one.
use mathlib.Core.List.{List, [], ◌∷◌, ◌++◌}
use mathlib.Core.Option.{Option, none, some}
use mathlib.Core.Bool.{Bool, true, false}
use mathlib.Core.Path.{◌≡◌, refl}
use mathlib.Core.Logic.{◌⊎◌, inl, inr}

pub data Exception : Type 0 where
  index_error zero_division assertion_error type_error key_error value_error : Exception
  runtime_error file_not_found called_process_error : Exception

pub data Result {ℓ} (A : Type ℓ) : Type ℓ where
  ok : A → Result A
  raise : Exception → Result A

pub Result-cases {ℓ} :
    {A : Type ℓ} (r : Result A) → ((a : A) × (r ≡ ok a)) ⊎ ((e : Exception) × (r ≡ raise e))
Result-cases (ok a) = inl (a, refl)
Result-cases (raise e) = inr (e, refl)

-- A statement and what follows it; the first exception ends both.
infixl 5 ◌>>=◌
abbrev pub ◌>>=◌ {ℓ κ} : {S : Type ℓ} {T : Type κ} (first : Result S) → (S → Result T) → Result T
raise x >>= next = raise x
ok s >>= next = next s

-- `assert b`, and any other guard that raises.
abbrev pub require : Bool → Exception → Result (Unit {0})
require true e = ok tt
require false e = raise e

infixl 5 ◌>>◌
abbrev pub ◌>>◌ {κ} : {T : Type κ} (check : Result (Unit {0})) → Result T → Result T
raise x >> next = raise x
ok done >> next = next

abbrev pub or_raise {ℓ} : {A : Type ℓ} → Option A → Exception → Result A
or_raise (some a) e = ok a
or_raise none e = raise e

-- Two statements that extend one list: what the first appends, then what the second appends.
infixr 5 ◌⊕◌
abbrev pub ◌⊕◌ {ℓ} : {A : Type ℓ} → Result (List A) → Result (List A) → Result (List A)
ok xs ⊕ ok ys = ok (xs ++ ys)
ok xs ⊕ raise e = raise e
raise e ⊕ _ = raise e

-- A `for` loop that extends one list: the parts in order, or the first exception.
abbrev pub for_each {ℓ κ} :
    {A : Type ℓ} {B : Type κ} → (A → Result (List B)) → List A → Result (List B)
for_each f [] = ok []
for_each f (x ∷ xs) = f x ⊕ for_each f xs
