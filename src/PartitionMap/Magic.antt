-- ===== src/PartitionMap/Magic.antt =====
-- srclib/libpartition_map/src/Magic.cpp: magic numbers in the first bytes of a file.
pub mod Laws
use pmt_renovated.Base.{
  ℕ, zero, suc, ◌+◌, ◌-◌, ◌*◌, ◌/◌, ◌%◌, ◌^◌, Bool, true, false, Option, none, some, List, [], ◌∷◌,
  ◌++◌, Text, codes, ltb, leb, ◌==◌, if◌then◌else◌, length,
}
use pmt_renovated.Helper.Error.{Outcome, done, undefined}

-- `(magic >> (8 * i)) & 0xFF`
unfoldable pub byte_at : ℕ → ℕ → ℕ
byte_at magic i = magic / 2 ^ (8 * i) % 256

-- The rounds `i`, `i + 1`, … of the loop of `getMagicLength`.
unfoldable pub length_from : ℕ → ℕ → ℕ → ℕ → ℕ
length_from magic zero i len = len
length_from magic (suc rounds) i len =
    length_from magic rounds (i + 1) (if byte_at magic i == 0 then len else i + 1)

unfoldable pub get_magic_length : ℕ → ℕ
unfolding length_from byte_at
get_magic_length magic = length_from magic 8 0 0

-- The number that the first `len` bytes spell, the lowest byte first. The bytes do not overlap, so
-- that `|=` adds them. `none`: a byte behind the end of the buffer is read.
unfoldable pub spelled : ℕ → List ℕ → Option ℕ
spelled zero bytes = some 0
spelled (suc len) [] = none
spelled (suc len) (b ∷ bytes) = elim (spelled len bytes) [
  | none ↦ none
  | some v ↦ some (b + 256 * v)
]

-- The loop of `hasMagic` from offset `i` on, over the buffer from there on; `bound` is the value of
-- `bytesRead - magicLength`.
unfoldable pub scan : ℕ → ℕ → ℕ → ℕ → List ℕ → Outcome Bool
scan magic len bound i [] = if ltb bound i then done false else undefined
scan magic len bound i (b ∷ bytes) =
    let rest = scan magic len bound (i + 1) bytes in
    if ltb bound i then done false else elim (spelled len (b ∷ bytes)) [
      | none ↦ undefined
      | some v ↦ if v == magic then done true else rest
    ]

abbrev pub size_t_mod : ℕ
size_t_mod = 2 ^ 64

-- `bytesRead - magicLength`, in `size_t`.
abbrev pub last_offset : ℕ → ℕ → ℕ
last_offset bytes_read len = (bytes_read + size_t_mod - len) % size_t_mod

unfoldable pub zeros : ℕ → List ℕ
zeros zero = []
zeros (suc n) = 0 ∷ zeros n

-- `hasMagic`, for a file that opens or does not, and what `read` puts into the buffer of `buf` zeros:
-- `none` where it fails.
unfoldable pub has_magic : ℕ → ℕ → Bool → Option (List ℕ) → Outcome Bool
has_magic magic buf opened none = done false
has_magic magic buf opened (some content) =
    let len = get_magic_length magic in
    let found =
      scan magic len (last_offset (length content) len) 0
        (content ++ zeros (buf - length content)) in
    if opened
    then (if ltb buf 1 then done false else if len == 0 then done false else found)
    else done false

-- `SizeUnit`, with any other number that an `enum` may hold.
pub data SizeUnit : Type 0 where
  byte kib mib gib : SizeUnit
  other : ℕ → SizeUnit

unfoldable pub get_size_unit_as_string : SizeUnit → Text
get_size_unit_as_string byte = codes "B"
get_size_unit_as_string kib = codes "KiB"
get_size_unit_as_string mib = codes "MiB"
get_size_unit_as_string gib = codes "GiB"
get_size_unit_as_string (other n) = []

-- `formatMagic`: a hexadecimal digit in capitals, and the number padded with zeros to 16 of them.
unfoldable pub hex_digit : ℕ → ℕ
hex_digit d = if ltb d 10 then b'0' + d else b'A' + (d - 10)

unfoldable pub hex_from : ℕ → ℕ → Text → Text
hex_from zero n later = later
hex_from (suc width) n later = hex_from width (n / 16) (hex_digit (n % 16) ∷ later)

unfoldable pub format_magic : ℕ → Text
unfolding hex_from hex_digit
format_magic magic = codes "0x" ++ hex_from 16 magic []
