-- ===== src/Effect.antt =====
-- The effects of the interpreter: every function of scheme14.cpp that allocates, throws or touches
-- a global is an action on the heap. A `SchemeError` leaves the heap as it was at the throw.
use secd_scheme.Prelude.{ℕ, true, Option, none, some, ◌∷◌, length}
use secd_scheme.Value.{Heap, Object, Message, SchemeError, Value}

-- The calls of `internal_error`, one for each kind of text. `null_template` is a null dereference,
-- `eval_entered` is the body of `eval`
-- as a primitive, and `too_wide` an operand that does not fit the 16 bits of an instruction: there the source goes
-- on with the wrapped number, and the model stops. `library` is an exception of another library.
pub data Fault : Type 0 where
  accessor underflow local_range dump_underflow code_exhausted null_template too_wide library
        eval_entered :
      Fault

pub data Result {ℓ} (A : Type ℓ) : Type ℓ where
  ok : A → Heap → Result A
  raise : SchemeError → Heap → Result A
  fault : Fault → Result A
  exit : ℕ → Result A
  out_of_fuel : Result A

abbrev pub M {ℓ} : Type ℓ → Type ℓ
M A = Heap → Result A

abbrev pub continue {ℓ κ} : {A : Type ℓ} {B : Type κ} → Result A → (A → M B) → Result B
continue (ok a h) f = f a h
continue (raise e h) f = raise e h
continue (fault x) f = fault x
continue (exit n) f = exit n
continue out_of_fuel f = out_of_fuel

infixl 10 ◌>>=◌ ◌>>◌
unfoldable pub ◌>>=◌ {ℓ κ} : {A : Type ℓ} {B : Type κ} → M A → (A → M B) → M B
◌>>=◌ m f h = continue (m h) f

abbrev pub ◌>>◌ {ℓ κ} : {A : Type ℓ} {B : Type κ} → M A → M B → M B
m >> k = m >>= λ _. k

unfoldable pub pure {ℓ} : {A : Type ℓ} → A → M A
pure a h = ok a h

-- `throw SchemeError(...)`, as `error_at` and `error_here` do outside the reader
unfoldable pub throw {ℓ} : {A : Type ℓ} → Message → M A
throw m h = raise (record { message = m; catchable = true }) h

unfoldable pub internal_error {ℓ} : {A : Type ℓ} → Fault → M A
internal_error x h = fault x

unfoldable pub gets {ℓ} : {A : Type ℓ} → (Heap → A) → M A
gets f h = ok (f h) h

unfoldable pub alloc : Object → M Value
alloc o h = ok (Value.object (length h.objects)) (record h { objects = o ∷ h.objects })

-- A missing value is an accessor's internal error.
unfoldable pub expect {ℓ} : {A : Type ℓ} → Option A → M A
expect none = internal_error Fault.accessor
expect (some a) = pure a
