-- ===== src/Helper/CmdLine/Number.antt =====
-- Decimal numbers as the command line reads and writes them: `std::to_string` and `std::stoul`
-- (cmdline.hpp, `from_string` and the size transformer, which call them).
pub mod Laws
use pmt_renovated.Base.{
  ℕ, zero, suc, ◌+◌, ◌-◌, ◌*◌, ◌/◌, ◌%◌, ◌^◌, Bool, true, false, ◌&&◌, ◌||◌, List, [], ◌∷◌, Text,
  ltb, leb, ◌==◌, if◌then◌else◌,
}
use pmt_renovated.Helper.Error.{Outcome, done, escaped}

-- The values of `uint64_t` and `unsigned long` lie below this.
abbrev pub u64_mod : ℕ
u64_mod = 2 ^ 64

unfoldable pub is_digit : ℕ → Bool
is_digit c = leb b'0' c && leb c b'9'

unfoldable pub is_space : ℕ → Bool
is_space c = c == 32 || leb 9 c && leb c 13

-- The digits of `n` in front of `later`; the fuel is more than `n`.
unfoldable pub digits_from : ℕ → ℕ → Text → Text
digits_from zero n later = later
digits_from (suc fuel) n later = elim (ltb n 10) [
  | true ↦ (b'0' + n) ∷ later
  | false ↦ digits_from fuel (n / 10) ((b'0' + n % 10) ∷ later)
]

-- `std::to_string`
unfoldable pub to_string : ℕ → Text
unfolding digits_from
to_string n = digits_from (suc n) n []

unfoldable pub value : ℕ → Text → ℕ
value acc [] = acc
value acc (c ∷ t) = value (acc * 10 + (c - b'0')) t

unfoldable pub take_while : (ℕ → Bool) → Text → Text
take_while p [] = []
take_while p (c ∷ t) = let rest = c ∷ take_while p t in if p c then rest else []

unfoldable pub drop_while : (ℕ → Bool) → Text → Text
drop_while p [] = []
drop_while p (c ∷ t) = let rest = drop_while p t in if p c then rest else c ∷ t

-- `strtoul` after the sign: no digit is `invalid_argument`, too large a number `out_of_range`.
magnitude : Bool → Text → Outcome ℕ
magnitude negative [] = escaped
magnitude negative (c ∷ t) =
    let v = value 0 (c ∷ t) in
    if leb u64_mod v then escaped else done (if negative then (u64_mod - v) % u64_mod else v)

signed : Text → Outcome ℕ
unfolding magnitude
signed [] = escaped
signed (c ∷ t) =
    if c == b'-'
    then magnitude true (take_while is_digit t)
    else if c == b'+'
    then magnitude false (take_while is_digit t)
    else magnitude false (take_while is_digit (c ∷ t))

-- `std::stoul`
unfoldable pub stoul : Text → Outcome ℕ
unfolding signed take_while drop_while is_digit is_space value
stoul s = signed (drop_while is_space s)
