-- ===== src/Helper/Error.antt =====
-- srclib/libhelper/include/libhelper/error.hpp: the error object, how it is thrown, and the ways in
-- which a call of the program ends.
pub mod Laws
use pmt_renovated.Base.{ℕ, Bool, true, false, Text}

pub record Error : Type 0 where
  pub message : Text
  pub ec : ℕ
  pub is_cmdline_error : Bool

-- `Error(fmt, args...)`, with the formatted text.
unfoldable pub new_error : Text → Error
new_error message = record { message = message; ec = 1; is_cmdline_error = false }

unfoldable pub with_code : Error → ℕ → Error
with_code e code = record e { ec = code }

unfoldable pub cmdline_error : Error → Error
cmdline_error e = record e { is_cmdline_error = true }

-- The copy constructor, whose initialiser list names `message` alone: the other members take the
-- initialisers of their declarations.
unfoldable pub copy : Error → Error
copy e = record { message = e.message; ec = 1; is_cmdline_error = false }

-- How a call ends: a value; a `Helper::Error`; an exception of the standard library, which no
-- handler of the program catches; `std::exit`; or a step that the language leaves undefined.
pub data Outcome {ℓ} (A : Type ℓ) : Type ℓ where
  done : A → Outcome A
  threw : Error → Outcome A
  escaped : Outcome A
  exited : ℕ → Outcome A
  undefined : Outcome A

infixl 5 ◌>>=◌ ◌>>◌
abbrev pub ◌>>=◌ {ℓ κ} : {A : Type ℓ} {B : Type κ} → Outcome A → (A → Outcome B) → Outcome B
done a >>= f = f a
threw e >>= f = threw e
escaped >>= f = escaped
exited n >>= f = exited n
undefined >>= f = undefined

abbrev pub ◌>>◌ {ℓ} : {B : Type ℓ} → Outcome (Unit {0}) → Outcome B → Outcome B
m >> k = m >>= λ _. k

-- `throw Error(...)`: the thrown object is initialised in place.
abbrev pub throw_new {ℓ} : {A : Type ℓ} → Text → Outcome A
throw_new message = threw (new_error message)

-- `throw Error(...).cmdlineError().withCode(code)`: the operand is an xvalue, and the class, which
-- declares a copy constructor, has no move constructor, so the thrown object is a copy.
abbrev pub throw_coded {ℓ} : {A : Type ℓ} → Text → ℕ → Outcome A
throw_coded message code = threw (copy (with_code (cmdline_error (new_error message)) code))

-- `sysexits.h`
abbrev pub ex_usage : ℕ
ex_usage = 64

abbrev pub ex_dataerr : ℕ
ex_dataerr = 65

abbrev pub ex_config : ℕ
ex_config = 78
