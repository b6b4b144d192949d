-- ===== src/Helper/CmdLine/Convert.antt =====
-- cmdline.hpp: `from_string` for the types that the program's options use, and the checkers.
use pmt_renovated.Base.{
  ℕ, ◌+◌, Bool, true, false, ◌||◌, List, [], ◌∷◌, ◌++◌, map, Text, codes, text_eq, contains, ltb,
  if◌then◌else◌,
}
use pmt_renovated.Helper.Error.{
  Outcome, done, threw, escaped, exited, undefined, throw_coded, ex_usage, ex_dataerr,
}
use pmt_renovated.Helper.CmdLine.Split.{split}
use pmt_renovated.Helper.CmdLine.Number.{stoul}

-- `from_string<bool>`
unfoldable pub to_bool : Text → Outcome Bool
to_bool s =
    if text_eq s (codes "true") || (text_eq s (codes "1") || text_eq s (codes "yes"))
    then done true
    else if text_eq s (codes "false") || (text_eq s (codes "0") || text_eq s (codes "no"))
    then done false
    else throw_coded (codes "Invalid bool value: " ++ s) ex_dataerr

-- `from_string<char>`
unfoldable pub to_char : Text → Outcome ℕ
to_char [] = throw_coded (codes "Empty char option") ex_dataerr
to_char (c ∷ s) = done c

-- `from_string<std::vector<std::string>>`
unfoldable pub to_texts : Text → List Text
to_texts s = split s b','

-- `BufferSizeCheck`, `min` and `max` being what its references denote when it runs.
unfoldable pub buffer_size_check : ℕ → ℕ → Text → Outcome (Unit {0})
buffer_size_check min max s = elim (stoul s) [
  | done size ↦
      if ltb size min || ltb max size
      then throw_coded (codes "Invalid buffer size format") ex_usage
      else done tt
  | threw e ↦ throw_coded (codes "Invalid buffer size format") ex_usage
  | escaped ↦ throw_coded (codes "Invalid buffer size format") ex_usage
  | exited n ↦ exited n
  | undefined ↦ undefined
]

-- The texts, with `, ` between them.
comma_list : List Text → Text
comma_list [] = []
comma_list (v ∷ []) = v
comma_list (v ∷ w ∷ vs) = v ++ (codes ", " ++ comma_list (w ∷ vs))

not_member : Text → List Text → Text
not_member s vals = s ++ (codes ": must be one of [" ++ (comma_list vals ++ codes "]."))

-- `IsMember`
unfoldable pub is_member : List Text → Text → Outcome (Unit {0})
unfolding not_member comma_list
is_member vals s = if contains vals s then done tt else throw_coded (not_member s vals) ex_usage

-- `std::tolower` in the C locale.
to_lower : ℕ → ℕ
to_lower c = if ltb c b'A' || ltb b'Z' c then c else c + 32

-- `IsMemberIgnoreCase`
unfoldable pub is_member_ignore_case : List Text → Text → Outcome (Unit {0})
unfolding not_member comma_list to_lower
is_member_ignore_case vals s =
    if contains (map (map to_lower) vals) (map to_lower s)
    then done tt
    else throw_coded (not_member s vals) ex_usage
