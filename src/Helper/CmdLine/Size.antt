-- ===== src/Helper/CmdLine/Size.antt =====
-- cmdline.hpp: the transformer `AsSizeValue`, over an interface of the floating point operations that
-- it calls.
pub mod Laws
pub mod Units
use pmt_renovated.Base.{
  ℕ, ◌+◌, ◌-◌, ◌*◌, Bool, true, false, ◌&&◌, ◌||◌, Option, none, some, [], ◌∷◌, map, Text, codes,
  text_eq, leb, ◌==◌, if◌then◌else◌,
}
use pmt_renovated.Helper.Error.{Outcome, done, escaped, undefined, ◌>>=◌}
use pmt_renovated.Helper.CmdLine.Number.{is_digit, to_string, take_while, drop_while}

-- `double`: `std::stod`, the product with an integer, and the conversion to `uint64_t`, which is
-- undefined (`none`) for a value out of range.
pub record Floating : Type 1 where
  pub Double : Type 0
  pub stod : Text → Outcome Double
  pub times : Double → ℕ → Double
  pub to_u64 : Double → Option ℕ

-- `std::toupper` in the C locale.
unfoldable pub to_upper : ℕ → ℕ
to_upper c = if leb b'a' c && leb c b'z' then c - 32 else c

unfoldable pub in_number : ℕ → Bool
unfolding is_digit
in_number c = is_digit c || c == b'.'

unfoldable pub is_blank : ℕ → Bool
is_blank c = c == 32

abbrev kilo : ℕ → ℕ
kilo base = base

abbrev mega : ℕ → ℕ
mega base = base * base

abbrev giga : ℕ → ℕ
giga base = base * base * base

abbrev tera : ℕ → ℕ
tera base = base * base * base * base

abbrev pub one_of : Text → Text → Text → Bool
one_of suffix a b = text_eq suffix a || text_eq suffix b

unfoldable pub multiplier : Bool → Text → ℕ
multiplier true suffix =
    if one_of suffix (codes "K") (codes "KB")
    then kilo 1000
    else if one_of suffix (codes "M") (codes "MB")
    then mega 1000
    else if one_of suffix (codes "G") (codes "GB")
    then giga 1000
    else if one_of suffix (codes "T") (codes "TB")
    then tera 1000
    else 1
multiplier false suffix =
    if one_of suffix (codes "K") (codes "KIB")
    then kilo 1024
    else if one_of suffix (codes "M") (codes "MIB")
    then mega 1024
    else if one_of suffix (codes "G") (codes "GIB")
    then giga 1024
    else if one_of suffix (codes "T") (codes "TIB")
    then tera 1024
    else if text_eq suffix (codes "KB")
    then kilo 1024
    else if text_eq suffix (codes "MB")
    then mega 1024
    else if text_eq suffix (codes "GB")
    then giga 1024
    else 1

unfoldable pub defined {ℓ} : {A : Type ℓ} → Option A → Outcome A
defined none = undefined
defined (some a) = done a

-- The text behind the number, without leading blanks and in capitals.
unfoldable pub suffix_of : Text → Text
suffix_of s = map to_upper (drop_while is_blank (drop_while in_number s))

module _ (F : Floating) where
  open F use {stod, times, to_u64}

  unfoldable pub as_size_value : Bool → Text → Outcome Text
  as_size_value use_si [] = escaped
  as_size_value use_si (c ∷ s) = do
    num ← stod (take_while in_number (c ∷ s))
    result ← defined (to_u64 (times num (multiplier use_si (suffix_of (c ∷ s)))))
    done (to_string result)
