-- ===== src/Helper/Error/Laws.antt =====
-- Inversion of successful steps, and what a handler sees of a thrown error (error.hpp).
use pmt_renovated.Base.{ℕ, ◌≡◌, refl, ap, false, Text}
use pmt_renovated.Helper.Error.{
  Outcome, done, threw, escaped, exited, undefined, ◌>>=◌, new_error, with_code, cmdline_error,
  copy,
}

pub >>=-eq-done {ℓ κ} :
    {A : Type ℓ} {B : Type κ} (m : Outcome A) (f : A → Outcome B) {b : B}
    → (m >>= f) ≡ done b
    → (a : A) × (m ≡ done a) × (f a ≡ done b)
>>=-eq-done (done a) f h = (a, refl, h)
>>=-eq-done (threw e) f h = cc
>>=-eq-done escaped f h = cc
>>=-eq-done (exited n) f h = cc
>>=-eq-done undefined f h = cc

pub >>=-assoc {ℓ κ μ} :
    {A : Type ℓ} {B : Type κ} {C : Type μ} (m : Outcome A) (f : A → Outcome B) (g : B → Outcome C)
    → ((m >>= f) >>= g) ≡ (m >>= λ a. f a >>= g)
>>=-assoc (done a) f g = refl
>>=-assoc (threw e) f g = refl
>>=-assoc escaped f g = refl
>>=-assoc (exited n) f g = refl
>>=-assoc undefined f g = refl

pub done_injective : {A : Type 0} {a b : A} → done a ≡ done b → a ≡ b
done_injective {A} {a} e = ap (λ m. the_value m) e
  where
    the_value : Outcome A → A
    the_value (done x) = x
    the_value m = a

-- An error that is made with any message and code and marked as a command line error reaches its
-- handler with the same message, but with exit code 1 and without the mark.
pub copy-with_code :
    (message : Text) (code : ℕ)
    → let e = copy (with_code (cmdline_error (new_error message)) code) in
      (e.message ≡ message) × (e.ec ≡ 1) × (e.is_cmdline_error ≡ false)
unfolding copy with_code cmdline_error new_error
copy-with_code message code = (refl, refl, refl)
