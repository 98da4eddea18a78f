-- ===== src/Prelude/Exceptions.antt =====
-- Python's exceptions as values, by the class that the program raises or catches.
use mathlib.Core.Bool.{Bool, true, false}
use mathlib.Core.Logic.{◌⊎◌, inl, inr}
use mathlib.Core.Path.{◌≡◌, refl}

pub data Exn : Type 0 where
  value_error key_error index_error runtime_error type_error attribute_error : Exn
  assertion_error os_error queue_full timeout_error unpickling_error not_implemented stop_iteration
        name_error :
      Exn

pub data Result {ℓ} (A : Type ℓ) : Type ℓ where
  ok : A → Result A
  raise : Exn → Result A

-- try: … except Exception: handler
abbrev pub catch {ℓ} : {A : Type ℓ} → Result A → (Exn → A) → A
catch (ok a) handler = a
catch (raise e) handler = handler e

-- assert b
abbrev pub assert : Bool → Result (Unit {0})
assert true = ok tt
assert false = raise assertion_error

infixl 5 ◌>>=◌ ◌>>◌
abbrev pub ◌>>=◌ {ℓ κ} : {A : Type ℓ} {B : Type κ} → Result A → (A → Result B) → Result B
ok value >>= next = next value
raise e >>= next = raise e

abbrev pub ◌>>◌ {ℓ} : {B : Type ℓ} → Result (Unit {0}) → Result B → Result B
first >> second = first >>= λ _. second

pub Result-cases {ℓ} :
    {A : Type ℓ} (r : Result A) → ((a : A) × (r ≡ ok a)) ⊎ ((e : Exn) × (r ≡ raise e))
Result-cases (ok a) = inl (a, refl)
Result-cases (raise e) = inr (e, refl)
