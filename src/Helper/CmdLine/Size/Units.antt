-- ===== src/Helper/CmdLine/Size/Units.antt =====
-- The numbers that the suffixes of `AsSizeValue` stand for (cmdline.hpp).
use pmt_renovated.Base.{
  ℕ, zero, suc, ◌+◌, ◌*◌, ◌^◌, ◌<◌, ◌≤◌, ◌≡◌, refl, sym, ap, ◌∙◌, subst, Bool, true, false, ◌||◌,
  List, [], ◌∷◌, ◌++◌, map, arith, Text, codes, text_eq, if◌then◌else◌,
}
use pmt_renovated.Helper.Error.{done, ◌>>=◌}
use pmt_renovated.Helper.CmdLine.Number.{is_digit, to_string, drop_while, stoul}
use pmt_renovated.Helper.CmdLine.Number.Laws.{Stops}
use pmt_renovated.Helper.CmdLine.Size.{
  Floating, in_number, is_blank, to_upper, multiplier, as_size_value,
}
use pmt_renovated.Helper.CmdLine.Size.Laws.{IsExact, as_size_value-stoul}

-- What each suffix stands for: powers of 1,000 with SI units, and of 1,024 without.
abbrev pub units : Bool → List (Text × ℕ)
units true =
    (codes "K", 1000)
    ∷ (codes "KB", 1000)
    ∷ (codes "M", 1000000)
    ∷ (codes "MB", 1000000)
    ∷ (codes "G", 1000000000)
    ∷ (codes "GB", 1000000000)
    ∷ (codes "T", 1000000000000)
    ∷ (codes "TB", 1000000000000)
    ∷ []
units false =
    (codes "K", 1024)
    ∷ (codes "KIB", 1024)
    ∷ (codes "M", 1048576)
    ∷ (codes "MIB", 1048576)
    ∷ (codes "G", 1073741824)
    ∷ (codes "GIB", 1073741824)
    ∷ (codes "T", 1099511627776)
    ∷ (codes "TIB", 1099511627776)
    ∷ (codes "KB", 1024)
    ∷ (codes "MB", 1048576)
    ∷ (codes "GB", 1073741824)
    ∷ []

-- The entry of a word in the list, and 1 for a word that has none.
abbrev pub unit_in : Text → List (Text × ℕ) → ℕ
unit_in word [] = 1
unit_in word (entry ∷ entries) = if text_eq word entry.0 then entry.1 else unit_in word entries

-- A word of capitals in any case: each letter as it is, or 32 above it.
pub data Typed : Text → Text → Type 0 where
  end_of_word : Typed [] []
  capital :
      {typed word : Text} (c : ℕ)
      → 65 ≤ c
      → c ≤ 90
      → Typed typed word
      → Typed (c ∷ typed) (c ∷ word)
  small :
      {typed word : Text} (c : ℕ)
      → 65 ≤ c
      → c ≤ 90
      → Typed typed word
      → Typed ((c + 32) ∷ typed) (c ∷ word)

abbrev pub blanks : ℕ → Text
blanks zero = []
blanks (suc n) = 32 ∷ blanks n

-- A branch for either of two words, with equal branches behind it.
either :
    (a b : Bool) (x : ℕ) {y z : ℕ}
    → y ≡ z
    → (if a || b then x else y) ≡ (if a then x else if b then x else z)
either true b x e = refl
either false true x e = refl
either false false x e = e

multiplier-unit_in :
    (use_si : Bool) (word : Text) → multiplier use_si word ≡ unit_in word (units use_si)
unfolding multiplier
multiplier-unit_in true word =
    let is : Text → Bool = text_eq word in
    either (is (codes "K")) (is (codes "KB")) 1000 (
      either (is (codes "M")) (is (codes "MB")) 1000000 (
        either (is (codes "G")) (is (codes "GB")) 1000000000
          (either (is (codes "T")) (is (codes "TB")) 1000000000000 refl)))
multiplier-unit_in false word =
    let is : Text → Bool = text_eq word in
    either (is (codes "K")) (is (codes "KIB")) 1024 (
      either (is (codes "M")) (is (codes "MIB")) 1048576 (
        either (is (codes "G")) (is (codes "GIB")) 1073741824
          (either (is (codes "T")) (is (codes "TIB")) 1099511627776 refl)))

to_upper-Typed : (typed word : Text) → Typed typed word → map to_upper typed ≡ word
unfolding to_upper
to_upper-Typed [] [] end_of_word = refl
to_upper-Typed (_ ∷ typed) (_ ∷ word) (capital c low high rest) =
    ground (arith, to_upper-Typed typed word rest)
to_upper-Typed (_ ∷ typed) (_ ∷ word) (small c low high rest) =
    ground (arith, to_upper-Typed typed word rest)
to_upper-Typed [] (_ ∷ word) t = elim t [ ]
to_upper-Typed (_ ∷ typed) [] t = elim t [ ]

drop_while-blanks :
    (k : ℕ) (typed word : Text) → Typed typed word → drop_while is_blank (blanks k ++ typed) ≡ typed
unfolding drop_while is_blank
drop_while-blanks zero [] word t = refl
drop_while-blanks zero (_ ∷ typed) (_ ∷ word) (capital c low high rest) = ground arith
drop_while-blanks zero (_ ∷ typed) (_ ∷ word) (small c low high rest) = ground arith
drop_while-blanks zero (_ ∷ typed) [] t = elim t [ ]
drop_while-blanks (suc k) typed word t = drop_while-blanks k typed word t

blanks-Stops : (k : ℕ) (typed word : Text) → Typed typed word → Stops in_number (blanks k ++ typed)
unfolding in_number is_digit
blanks-Stops zero [] word t = tt
blanks-Stops zero (_ ∷ typed) (_ ∷ word) (capital c low high rest) = ground arith
blanks-Stops zero (_ ∷ typed) (_ ∷ word) (small c low high rest) = ground arith
blanks-Stops zero (_ ∷ typed) [] t = elim t [ ]
blanks-Stops (suc k) typed word t = refl

-- Where floating point is exact for whole numbers below 2^53: a whole number with a word of letters behind
-- it, in any case and behind any number of blanks, becomes the number of units that the word stands for,
-- and reading the result as `uint64_t` gives that number, while it is below 2^53. A word that is not in the
-- list, `TB` without SI units among them, stands for 1.
pub as_size_value-unit_in :
    (F : Floating) (laws : IsExact F) (use_si : Bool) (n k : ℕ) (typed word : Text)
    → Typed typed word
    → n * unit_in word (units use_si) < 2 ^ 53
    → (as_size_value F use_si (to_string n ++ (blanks k ++ typed)) >>= stoul)
      ≡ done (n * unit_in word (units use_si))
as_size_value-unit_in F laws use_si n k typed word t small_enough =
    let same : multiplier use_si (map to_upper (drop_while is_blank (blanks k ++ typed)))
        ≡ unit_in word (units use_si) =
      ap (λ s. multiplier use_si (map to_upper s)) (drop_while-blanks k typed word t)
      ∙ ap (multiplier use_si) (to_upper-Typed typed word t)
      ∙ multiplier-unit_in use_si word in
    as_size_value-stoul F laws use_si n (blanks k ++ typed) (blanks-Stops k typed word t)
      (subst (λ u. n * u < 2 ^ 53) (sym same) small_enough)
    ∙ ap (λ u. done (n * u)) same
