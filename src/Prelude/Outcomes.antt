-- ===== src/Prelude/Outcomes.antt =====
-- What holds of the value of code that may raise an exception.
use mathlib.Core.Path.{◌≡◌, refl}
use mathlib.Core.Logic.{◌⊎◌, inl, inr}
use attacc_simulator_vlm.Prelude.Results.{Exception, Result, ok, raise, ◌>>=◌}

abbrev pub Always {ℓ} : {A : Type ℓ} → (A → Type 0) → Result A → Type 0
Always P (ok a) = P a
Always P (raise e) = Unit

-- The same as a statement: a value with `P`, or an exception.
abbrev pub EndsWith {ℓ} : {A : Type ℓ} → (A → Type 0) → Result A → Type ℓ
EndsWith {A = A} P r = ((a : A) × (r ≡ ok a) × P a) ⊎ ((e : Exception) × (r ≡ raise e))

pub Always-EndsWith {ℓ} : {A : Type ℓ} {P : A → Type 0} (r : Result A) → Always P r → EndsWith P r
Always-EndsWith (ok a) h = inl (a, refl, h)
Always-EndsWith (raise e) h = inr (e, refl)

module _ {A : Type 0} (P : A → Type 0) where
  pub Always-imp : (Q : A → Type 0) (r : Result A) → ((a : A) → P a → Q a) → Always P r → Always Q r
  Always-imp Q (ok a) f h = f a h
  Always-imp Q (raise e) f h = tt

module _ {A B : Type 0} (P : B → Type 0) where
  pub bind-Always :
      (r : Result A) (f : A → Result B) → ((a : A) → Always P (f a)) → Always P (r >>= f)
  bind-Always (ok a) f h = h a
  bind-Always (raise e) f h = tt

  pub bind-both :
      (Q : A → Type 0) (r : Result A) (f : A → Result B)
      → Always Q r
      → ((a : A) → Q a → Always P (f a))
      → Always P (r >>= f)
  bind-both Q (ok a) f q h = h a q
  bind-both Q (raise e) f q h = tt

-- Code that raises an exception.
abbrev pub Raises {ℓ} : {A : Type ℓ} → Result A → Type ℓ
Raises r = (e : Exception) × (r ≡ raise e)

pub bind-Raises :
    {A B : Type 0} (r : Result A) (f : A → Result B) → ((a : A) → Raises (f a)) → Raises (r >>= f)
bind-Raises (ok a) f h = h a
bind-Raises (raise e) f h = (e, refl)

-- What is returned beside a state, once it is known.
pub known_result {ℓ κ} :
    {A : Type ℓ} {S : Type κ} (out : A × S) (r : A) → out.0 ≡ r → out ≡ (r, out.1)
known_result out r e i = (e i, out.1)
