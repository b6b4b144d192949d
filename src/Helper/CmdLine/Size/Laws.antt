-- ===== src/Helper/CmdLine/Size/Laws.antt =====
-- What `AsSizeValue` makes of a number with a suffix (cmdline.hpp).
use pmt_renovated.Base.{
  ℕ, ◌*◌, ◌^◌, ◌<◌, ◌≡◌, ◌≢◌, refl, sym, ap, ◌∙◌, subst, Bool, true, false, some, [], ◌∷◌, ◌++◌,
  map, arith, Text, codes, All, text_eq,
}
use pmt_renovated.Helper.Error.{done, ◌>>=◌}
use pmt_renovated.Helper.CmdLine.Number.{is_digit, to_string, value, drop_while, stoul}
use pmt_renovated.Helper.CmdLine.Number.Laws.{
  IsDigits, Stops, take_while-append, value-to_string, to_string-IsDigits, to_string-ne-nil,
  stoul-to_string,
}
use pmt_renovated.Helper.CmdLine.Size.{
  Floating, in_number, is_blank, to_upper, multiplier, suffix_of, as_size_value, defined,
}

-- A whole number with a product below 2^53 is computed exactly.
pub record IsExact (F : Floating) : Type 0 where
  pub exact :
      (t : Text) (m : ℕ)
      → IsDigits t
      → t ≢ []
      → value 0 t * m < 2 ^ 53
      → (d : F.Double) × (F.stod t ≡ done d) × (F.to_u64 (F.times d m) ≡ some (value 0 t * m))

IsDigits-in_number : (t : Text) → IsDigits t → All (λ c. in_number c ≡ true) t
unfolding in_number
IsDigits-in_number [] h = tt
IsDigits-in_number (c ∷ t) h = (rw (h.0), IsDigits-in_number t h.1)

module _ (F : Floating) (laws : IsExact F) where
  size_digits :
      (use_si : Bool) (t suffix : Text)
      → IsDigits t
      → t ≢ []
      → Stops in_number suffix
      → value 0 t * multiplier use_si (map to_upper (drop_while is_blank suffix)) < 2 ^ 53
      → as_size_value F use_si (t ++ suffix)
        ≡ done
            (to_string (value 0 t * multiplier use_si (map to_upper (drop_while is_blank suffix))))
  unfolding as_size_value suffix_of defined
  size_digits use_si [] suffix h ne stop k = absurd (ne refl)
  size_digits use_si (c ∷ t) suffix h ne stop k =
      let parts = take_while-append in_number (c ∷ t) suffix (IsDigits-in_number (c ∷ t) h) stop in
      let (d, read, scaled) =
        laws.exact (c ∷ t) (multiplier use_si (map to_upper (drop_while is_blank suffix))) h ne k in
      rw (as_size_value, suffix_of, parts.0, parts.1, read, scaled, defined) refl

  -- A whole number with a suffix, in any case and behind blanks, becomes the number of units that
  -- the suffix stands for, and reading the result as `uint64_t` gives that number, while it is below
  -- 2^53.
  pub as_size_value-stoul :
      (use_si : Bool) (n : ℕ) (suffix : Text)
      → Stops in_number suffix
      → n * multiplier use_si (map to_upper (drop_while is_blank suffix)) < 2 ^ 53
      → (as_size_value F use_si (to_string n ++ suffix) >>= stoul)
        ≡ done (n * multiplier use_si (map to_upper (drop_while is_blank suffix)))
  as_size_value-stoul use_si n suffix stop k =
      let m = multiplier use_si (map to_upper (drop_while is_blank suffix)) in
      let e = value-to_string n in
      rw
        (
          size_digits use_si (to_string n) suffix (to_string-IsDigits n) (to_string-ne-nil n) stop
              (subst (λ v. v * m < 2 ^ 53) (sym e) k),
          e,
        )
        (stoul-to_string (n * m) (omega arith))

  -- `KB`, `MB` and `GB` stand for binary units, but `TB` for single bytes; `TIB` for binary terabytes.
  pub as_size_value_units :
      (n : ℕ)
      → n * 1024 ^ 4 < 2 ^ 53
      → ((as_size_value F false (to_string n ++ codes "KB") >>= stoul) ≡ done (n * 1024))
        × ((as_size_value F false (to_string n ++ codes "MB") >>= stoul) ≡ done (n * 1024 ^ 2))
        × ((as_size_value F false (to_string n ++ codes "GB") >>= stoul) ≡ done (n * 1024 ^ 3))
        × ((as_size_value F false (to_string n ++ codes "TIB") >>= stoul) ≡ done (n * 1024 ^ 4))
        × ((as_size_value F false (to_string n ++ codes "TB") >>= stoul) ≡ done n)
  unfolding in_number is_digit multiplier to_upper drop_while is_blank text_eq
  as_size_value_units n h = (
    as_size_value-stoul false n (codes "KB") refl (omega arith),
    as_size_value-stoul false n (codes "MB") refl (omega arith),
    as_size_value-stoul false n (codes "GB") refl (omega arith),
    as_size_value-stoul false n (codes "TIB") refl (omega arith),
    as_size_value-stoul false n (codes "TB") refl (omega arith) ∙ ap done (omega arith),
  )
