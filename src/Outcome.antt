-- ===== src/Outcome.antt =====
-- The outcomes of the C++ code as values, and state passing over them.
use robotraconteur_pyodide.Prelude.{Bool, true, false, ◌≡◌, refl}

-- The exceptions that the modelled code throws, by the class that is thrown.
pub data Exception : Type 0 where
  buffer_limit_violation protocol data_type data_serialization invalid_argument : Exception
  message_entry_not_found message_element_not_found : Exception
  bad_numeric_cast length_error bad_array_new_length data_type_mismatch : Exception
  read_only_member write_only_member invalid_operation value_not_set : Exception

-- `undefined` is what C++ leaves undefined, such as a read past a buffer; `stuck` is no outcome of
-- the code: the fuel of the model ran out.
pub data Result {ℓ} (A : Type ℓ) : Type ℓ where
  ok : A → Result A
  throw : Exception → Result A
  undefined : Result A
  stuck : Result A

abbrev pub bind {ℓ κ} : {A : Type ℓ} {B : Type κ} → Result A → (A → Result B) → Result B
bind (ok a) f = f a
bind (throw e) f = throw e
bind undefined f = undefined
bind stuck f = stuck

-- `if (!test) throw e;`
abbrev pub require : Bool → Exception → Result (Unit {0})
require true e = ok tt
require false e = throw e

-- A method on an object of state `S`.
abbrev pub Action : Type 0 → Type 0 → Type 0
Action S A = S → Result (A × S)

infixl 5 ◌>>=◌ ◌>>◌
unfoldable pub ◌>>=◌ : {S A B : Type 0} → Action S A → (A → Action S B) → Action S B
◌>>=◌ m f s = bind (m s) (λ (a, s'). f a s')

abbrev pub ◌>>◌ : {S A B : Type 0} → Action S A → Action S B → Action S B
m >> k = m >>= λ _. k

unfoldable pub return : {S A : Type 0} → A → Action S A
return a s = ok (a, s)

-- A computation that does not touch the object.
unfoldable pub lift : {S A : Type 0} → Result A → Action S A
lift m s = bind m (λ a. ok (a, s))

unfoldable pub raise : {S A : Type 0} → Exception → Action S A
raise e s = throw e

unfoldable pub out_of_fuel : {S A : Type 0} → Action S A
out_of_fuel s = stuck

-- Inversion of a successful bind.
pub bind-eq-ok {ℓ κ} :
    {A : Type ℓ} {B : Type κ} (m : Result A) (f : A → Result B) {b : B}
    → bind m f ≡ ok b
    → (a : A) × (m ≡ ok a) × (f a ≡ ok b)
bind-eq-ok (ok a) f h = (a, refl, h)
bind-eq-ok (throw e) f h = cc
bind-eq-ok undefined f h = cc
bind-eq-ok stuck f h = cc

pub ok-injective {ℓ} : {A : Type ℓ} {a b : A} → ok a ≡ ok b → a ≡ b
ok-injective h = cc h
