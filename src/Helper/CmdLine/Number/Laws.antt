-- ===== src/Helper/CmdLine/Number/Laws.antt =====
-- Printing a number and reading it back (cmdline.hpp, `std::to_string` with `std::stoul`).
use pmt_renovated.Base.{
  ℕ, zero, suc, ◌/◌, ◌<◌, ◌≡◌, ◌≢◌, refl, sym, ◌∙◌, ap, subst, inl, inr, Bool, true, false, [], ◌∷◌,
  ◌++◌, arith, Text, ltb, leb, ◌==◌, All, Bool-cases,
}
use mathlib.Core.List.{append-nil}
use pmt_renovated.Helper.Error.{done}
use pmt_renovated.Helper.CmdLine.Number.{
  u64_mod, is_digit, is_space, digits_from, to_string, value, take_while, drop_while, stoul, signed,
  magnitude,
}

abbrev pub IsDigits : Text → Type 0
IsDigits = All λ c. is_digit c ≡ true

digits_from_lem :
    (fuel n : ℕ) (later : Text) → n < fuel → value 0 (digits_from fuel n later) ≡ value n later
unfolding digits_from value
digits_from_lem zero n later h = elim h [ ]
digits_from_lem (suc fuel) n later h = elim (Bool-cases (ltb n 10)) [
  | inl e ↦ rw (e, digits_from) (ap (λ k. value k later) (omega arith))
  | inr e ↦
      rw (e, digits_from)
        (digits_from_lem fuel (n / 10) _ (ground arith) ∙ ap (λ k. value k later) (omega arith))
]

digits_from-IsDigits :
    (fuel n : ℕ) (later : Text) → IsDigits later → IsDigits (digits_from fuel n later)
unfolding digits_from is_digit
digits_from-IsDigits zero n later h = h
digits_from-IsDigits (suc fuel) n later h = elim (Bool-cases (ltb n 10)) [
  | inl e ↦ rw (e, digits_from) (ground arith, h)
  | inr e ↦ rw (e, digits_from) (digits_from-IsDigits fuel (n / 10) _ (ground arith, h))
]

digits_from-ne-nil : (fuel n : ℕ) (later : Text) → later ≢ [] → digits_from fuel n later ≢ []
unfolding digits_from
digits_from-ne-nil zero n later h = h
digits_from-ne-nil (suc fuel) n later h = elim (Bool-cases (ltb n 10)) [
  | inl e ↦ rw (e, digits_from) (λ q. cc)
  | inr e ↦ rw (e, digits_from) (digits_from-ne-nil fuel (n / 10) _ (λ q. cc))
]

pub value-to_string : (n : ℕ) → value 0 (to_string n) ≡ n
unfolding to_string
value-to_string n = digits_from_lem (suc n) n [] (omega arith) ∙ unfold value in refl

pub to_string-IsDigits : (n : ℕ) → IsDigits (to_string n)
unfolding to_string
to_string-IsDigits n = digits_from-IsDigits (suc n) n [] tt

pub to_string-ne-nil : (n : ℕ) → to_string n ≢ []
unfolding to_string digits_from
to_string-ne-nil n = elim (Bool-cases (ltb n 10)) [
  | inl e ↦ rw (e, digits_from) (λ q. cc)
  | inr e ↦ rw (e, digits_from) (digits_from-ne-nil n (n / 10) _ (λ q. cc))
]

-- Where a run of characters that satisfy `p` ends.
abbrev pub Stops : (ℕ → Bool) → Text → Type 0
Stops p [] = Unit
Stops p (c ∷ t) = p c ≡ false

pub take_while-append :
    (p : ℕ → Bool) (t rest : Text)
    → All (λ c. p c ≡ true) t
    → Stops p rest
    → (take_while p (t ++ rest) ≡ t) × (drop_while p (t ++ rest) ≡ rest)
unfolding take_while drop_while
take_while-append p [] [] h k = (refl, refl)
take_while-append p [] (c ∷ rest) h k = (rw k, rw k)
take_while-append p (c ∷ t) rest h k =
    let ih = take_while-append p t rest h.1 k in (rw (h.0) (ap (◌∷◌ c) (ih.0)), rw (h.0) (ih.1))

pub take_while_full : (p : ℕ → Bool) (t : Text) → All (λ c. p c ≡ true) t → take_while p t ≡ t
take_while_full p t h = ap (take_while p) (sym (append-nil t)) ∙ (take_while-append p t [] h tt).0

-- A digit is no space and no sign.
digit_plain :
    (c : ℕ)
    → is_digit c ≡ true
    → (is_space c ≡ false) × ((c == b'-') ≡ false) × ((c == b'+') ≡ false)
unfolding is_digit is_space
digit_plain c h = (ground arith, ground arith, ground arith)

magnitude_lem : (t : Text) → t ≢ [] → value 0 t < u64_mod → magnitude false t ≡ done (value 0 t)
unfolding magnitude
magnitude_lem [] h k = absurd (h refl)
magnitude_lem (c ∷ t) h k = let e : leb u64_mod (value 0 (c ∷ t)) ≡ false = ground arith in rw e

-- A text of digits that fits in 64 bits is read as the number that it spells.
pub stoul_digits :
    (t : Text) → IsDigits t → t ≢ [] → value 0 t < u64_mod → stoul t ≡ done (value 0 t)
unfolding stoul signed drop_while
stoul_digits [] h ne k = absurd (ne refl)
stoul_digits (c ∷ t) h ne k =
    let plain = digit_plain c h.0 in
    rw (plain.0, drop_while, signed, plain.1, plain.2, take_while_full is_digit (c ∷ t) h)
      (magnitude_lem (c ∷ t) ne k)

-- Reading back what is printed: for every number below 2^64.
pub stoul-to_string : (n : ℕ) → n < u64_mod → stoul (to_string n) ≡ done n
stoul-to_string n h =
    stoul_digits (to_string n) (to_string-IsDigits n) (to_string-ne-nil n)
      (subst (λ k. k < u64_mod) (sym (value-to_string n)) h)
    ∙ ap done (value-to_string n)
