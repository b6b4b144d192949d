-- ===== src/Helper/Sha256.antt =====
-- srclib/libhelper/src/Sha256.cpp, over OpenSSL's digest.
use pmt_renovated.Base.{
  ℕ, ◌+◌, ◌/◌, ◌%◌, ◌<◌, ◌≡◌, refl, ap, ap₂, sym, ◌∙◌, Bool, true, false, ◌||◌, Option, none, some,
  inl, inr, if-cases, List, [], ◌∷◌, All, Text, codes, text_eq, text_eq_sound, is_empty, ltb, arith,
  if◌then◌else◌,
}
use pmt_renovated.Helper.Error.{Outcome, done, ◌>>=◌, throw_new}
use pmt_renovated.Helper.Error.Laws.{done_injective, >>=-eq-done}

-- What stands at a path, links followed: nothing; something that cannot be opened; a file.
pub data Entry : Type 0 where
  missing : Entry
  locked : Entry
  bytes : List ℕ → Entry

-- A digit of `std::hex`.
hex_digit : ℕ → ℕ
hex_digit d = if ltb d 10 then d + 48 else d + 87

-- `bytesToHexString`: two digits for each byte.
unfoldable pub bytes_to_hex_string : List ℕ → Text
unfolding hex_digit
bytes_to_hex_string [] = []
bytes_to_hex_string (b ∷ bs) = hex_digit (b / 16) ∷ hex_digit (b % 16) ∷ bytes_to_hex_string bs

-- `SHA256_Init`, `SHA256_Update` and `SHA256_Final` over a file's bytes; `none`: one of them failed.
abbrev pub Digest : Type 0
Digest = List ℕ → Option (List ℕ)

unfoldable pub hashed : Option (List ℕ) → Outcome Text
unfolding bytes_to_hex_string
hashed none = throw_new (codes "SHA256 failed")
hashed (some hash) = done (bytes_to_hex_string hash)

unfoldable pub sha256_of : Digest → Entry → Outcome Text
unfolding hashed
sha256_of digest missing = throw_new (codes "Is not exists or not file")
sha256_of digest locked = throw_new (codes "Cannot open file")
sha256_of digest (bytes content) = hashed (digest content)

unfoldable pub sha256_compare : Digest → Entry → Entry → Outcome Bool
unfolding sha256_of
sha256_compare digest file1 file2 = sha256_of digest file1 >>= λ f1.
    sha256_of digest file2 >>= λ f2.
    done (if is_empty f1 || is_empty f2 then false else text_eq f1 f2)

hex_digit_injective : (a b : ℕ) → a < 16 → b < 16 → hex_digit a ≡ hex_digit b → a ≡ b
unfolding hex_digit
hex_digit_injective a b h k e = ground arith

abbrev pub IsByte : ℕ → Type 0
IsByte b = b < 256

-- Two sequences of bytes with the same hexadecimal text are the same.
pub bytes_to_hex_string_injective :
    (xs ys : List ℕ)
    → All IsByte xs
    → All IsByte ys
    → bytes_to_hex_string xs ≡ bytes_to_hex_string ys
    → xs ≡ ys
unfolding bytes_to_hex_string
bytes_to_hex_string_injective [] [] h k e = refl
bytes_to_hex_string_injective [] (y ∷ ys) h k e = cc
bytes_to_hex_string_injective (x ∷ xs) [] h k e = cc
bytes_to_hex_string_injective (x ∷ xs) (y ∷ ys) (x_byte, h) (y_byte, k) e =
    let high : hex_digit (x / 16) ≡ hex_digit (y / 16) = cc in
    let low : hex_digit (x % 16) ≡ hex_digit (y % 16) = cc in
    let rest : bytes_to_hex_string xs ≡ bytes_to_hex_string ys = cc in
    let top : x / 16 ≡ y / 16 = hex_digit_injective _ _ (omega arith) (omega arith) high in
    let bottom : x % 16 ≡ y % 16 = hex_digit_injective _ _ (omega arith) (omega arith) low in
    ap₂ (λ b bs. b ∷ bs) (omega arith) (bytes_to_hex_string_injective xs ys h k rest)

-- A digest that consists of bytes.
abbrev pub GivesBytes : Digest → Type 0
GivesBytes digest = (content hash : List ℕ) → digest content ≡ some hash → All IsByte hash

sha256_of-eq-done :
    (digest : Digest) (file : Entry) {text : Text}
    → sha256_of digest file ≡ done text
    → (content : List ℕ) × (hash : List ℕ) × (file ≡ bytes content)
      × (digest content ≡ some hash)
      × (bytes_to_hex_string hash ≡ text)
unfolding sha256_of hashed
sha256_of-eq-done digest missing e = cc
sha256_of-eq-done digest locked e = cc
sha256_of-eq-done digest (bytes content) {text} e = from_hash (digest content) refl e
  where
    from_hash :
        (o : Option (List ℕ))
        → digest content ≡ o
        → hashed o ≡ done text
        → (xs : List ℕ) × (hash : List ℕ) × (bytes content ≡ bytes xs)
          × (digest xs ≡ some hash)
          × (bytes_to_hex_string hash ≡ text)
    from_hash none d k = absurd cc
    from_hash (some hash) d k = (content, hash, refl, d, done_injective k)

-- Over a digest of bytes, two files that are found equal can both be read, and have one digest.
pub sha256_compare_sound :
    (digest : Digest) (file1 file2 : Entry)
    → GivesBytes digest
    → sha256_compare digest file1 file2 ≡ done true
    → (xs ys : List ℕ) × (hash : List ℕ) × (file1 ≡ bytes xs)
      × (file2 ≡ bytes ys)
      × (digest xs ≡ some hash)
      × (digest ys ≡ some hash)
unfolding sha256_compare
sha256_compare_sound digest file1 file2 good e =
    let (f1, ran1, e1) = >>=-eq-done (sha256_of digest file1) _ e in
    let (f2, ran2, e2) = >>=-eq-done (sha256_of digest file2) _ e1 in
    let (xs, hash, file_xs, digest_xs, text1) = sha256_of-eq-done digest file1 ran1 in
    let (ys, hash', file_ys, digest_ys, text2) = sha256_of-eq-done digest file2 ran2 in
    elim (if-cases (is_empty f1 || is_empty f2) _ _ (done_injective e2)) [
      | inl (empty, no_way) ↦ absurd cc
      | inr (some_text, same) ↦
          let equal : hash ≡ hash' =
            bytes_to_hex_string_injective hash hash' (good xs hash digest_xs)
              (good ys hash' digest_ys) (text1 ∙ text_eq_sound f1 f2 same ∙ sym text2) in
          (xs, ys, hash, file_xs, file_ys, digest_xs, digest_ys ∙ ap some (sym equal))
    ]
