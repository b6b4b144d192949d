-- ===== src/PartitionMap/Magic/Laws.antt =====
-- When `hasMagic` answers, and what (Magic.cpp).
use pmt_renovated.Base.{
  ℕ, zero, suc, ◌+◌, ◌-◌, ◌*◌, ◌^◌, ◌≤◌, ◌<◌, ◌≡◌, ◌↔◌, refl, ap, ◌∙◌, inl, inr, Bool, true, false,
  none, some, List, [], ◌∷◌, ◌++◌, arith, ltb, ◌==◌, ==_iff, if◌then◌else◌, length, length-append,
  Bool-cases, Option-cases,
}
use pmt_renovated.Helper.Error.{done, undefined}
use pmt_renovated.PartitionMap.Magic.{
  get_magic_length, length_from, spelled, scan, last_offset, has_magic, zeros,
}

-- The independent description: somewhere in the content there are bytes that spell the number.
pub data Occurs (magic len : ℕ) : List ℕ → Type 0 where
  here : {bytes : List ℕ} → spelled len bytes ≡ some magic → Occurs magic len bytes
  there : {b : ℕ} {bytes : List ℕ} → Occurs magic len bytes → Occurs magic len (b ∷ bytes)

spelled-append :
    (len : ℕ) (bytes more : List ℕ)
    → len ≤ length bytes
    → spelled len (bytes ++ more) ≡ spelled len bytes
unfolding spelled
spelled-append zero bytes more h = refl
spelled-append (suc len) [] more h = absurd (omega arith)
spelled-append (suc len) (b ∷ bytes) more h = rw (spelled-append len bytes more (omega arith))

spelled_enough :
    (len : ℕ) (bytes : List ℕ) → len ≤ length bytes → (v : ℕ) × (spelled len bytes ≡ some v)
unfolding spelled
spelled_enough zero bytes h = (0, refl)
spelled_enough (suc len) [] h = absurd (omega arith)
spelled_enough (suc len) (b ∷ bytes) h =
    let (v, e) = spelled_enough len bytes (omega arith) in (b + 256 * v, rw e)

spelled-length :
    (len : ℕ) (bytes : List ℕ) {v : ℕ} → spelled len bytes ≡ some v → len ≤ length bytes
unfolding spelled
spelled-length zero bytes e = omega arith
spelled-length (suc len) [] e = cc
spelled-length (suc len) (b ∷ bytes) e = elim (Option-cases (spelled len bytes)) [
  | inl short ↦ absurd (cc (rw short at e))
  | inr (v, enough) ↦ omega (arith, spelled-length len bytes enough)
]

Occurs-length : (magic len : ℕ) (content : List ℕ) → Occurs magic len content → len ≤ length content
Occurs-length magic len content (here e) = spelled-length len content e
Occurs-length magic len (b ∷ content) (there o) = omega (arith, Occurs-length magic len content o)

-- The search over the content alone.
search : ℕ → ℕ → List ℕ → Bool
search magic len [] = false
search magic len (b ∷ bytes) =
    let rest = search magic len bytes in
    if ltb (length (b ∷ bytes)) len
    then false
    else elim (spelled len (b ∷ bytes)) [ none ↦ rest | some v ↦ if v == magic then true else rest ]

scan_past :
    (magic len bound i : ℕ) (bytes : List ℕ) → bound < i → scan magic len bound i bytes ≡ done false
unfolding scan
scan_past magic len bound i [] h = ground arith
scan_past magic len bound i (b ∷ bytes) h = ground arith

scan-search :
    (magic len bound i : ℕ) (content pad : List ℕ)
    → 0 < len
    → bound + len ≡ i + length content
    → scan magic len bound i (content ++ pad) ≡ done (search magic len content)
unfolding search scan
scan-search magic len bound i [] pad pos e = scan_past magic len bound i pad (omega arith)
scan-search magic len bound i (b ∷ content) pad pos e =
    elim (Bool-cases (ltb (length (b ∷ content)) len)) [
      | inl short ↦ rw short (scan_past magic len bound i (b ∷ (content ++ pad)) (ground arith))
      | inr enough ↦
          let (v, read) = spelled_enough len (b ∷ content) (ground arith) in
          let same : spelled len (b ∷ (content ++ pad)) ≡ some v =
            spelled-append len (b ∷ content) pad (ground arith) ∙ read in
          let inside : ltb bound i ≡ false = ground arith in
          let rest = scan-search magic len bound (i + 1) content pad pos (ground arith) in
          rw (enough, read, scan, inside, same) (found v rest)
    ]
  where
    found :
        (v : ℕ)
        → scan magic len bound (i + 1) (content ++ pad) ≡ done (search magic len content)
        → (if v == magic then done true else scan magic len bound (i + 1) (content ++ pad))
          ≡ done (if v == magic then true else search magic len content)
    found v e = ground arith

search-Occurs :
    (magic len : ℕ) (content : List ℕ) → search magic len content ≡ true → Occurs magic len content
unfolding search
search-Occurs magic len [] e = cc
search-Occurs magic len (b ∷ content) e = elim (Option-cases (spelled len (b ∷ content))) [
  | inl short ↦ there (search-Occurs magic len content (ground arith))
  | inr (v, read) ↦ elim (Bool-cases (v == magic)) [
    | inl hit ↦ here (read ∙ ap some ((==_iff v magic).0 hit))
    | inr miss ↦ there (search-Occurs magic len content (ground arith))
  ]
]

Occurs-search :
    (magic len : ℕ) (content : List ℕ)
    → 0 < len
    → Occurs magic len content
    → search magic len content ≡ true
unfolding search
Occurs-search magic len [] pos (here e) = absurd (omega (arith, spelled-length len [] e))
Occurs-search magic len (b ∷ content) pos (here e) =
    ground (arith, spelled-length len (b ∷ content) e)
Occurs-search magic len (b ∷ content) pos (there o) =
    ground (arith, Occurs-length magic len content o, Occurs-search magic len content pos o)

length_from-le : (magic rounds i len : ℕ) → len ≤ i → length_from magic rounds i len ≤ i + rounds
unfolding length_from
length_from-le magic zero i len h = omega arith
length_from-le magic (suc rounds) i len h =
    ground
      (arith, length_from-le magic rounds (i + 1) len, length_from-le magic rounds (i + 1) (i + 1))

pub get_magic_length-le : (magic : ℕ) → get_magic_length magic ≤ 8
unfolding get_magic_length
get_magic_length-le magic = length_from-le magic 8 0 0 (omega arith)

-- For a number other than 0 and a file of at least as many bytes as the number is long, read into a
-- buffer that holds them all, `hasMagic` answers, and its answer is true exactly when the bytes of the
-- number occur in what was read.
pub has_magic-Occurs :
    (magic buf : ℕ) (content : List ℕ)
    → 0 < get_magic_length magic
    → get_magic_length magic ≤ length content
    → length content ≤ buf
    → buf < 2 ^ 63
    → (answer : Bool) × (has_magic magic buf true (some content) ≡ done answer)
      × ((answer ≡ true) ↔ Occurs magic (get_magic_length magic) content)
unfolding has_magic
has_magic-Occurs magic buf content pos enough fits small =
    let len = get_magic_length magic in
    let bound : last_offset (length content) len ≡ length content - len = omega arith in
    let ran =
      scan-search magic len (length content - len) 0 content (zeros (buf - length content)) pos
        (omega arith) in
    (
      search magic len content,
      rw bound (ground (arith, ran)),
      (search-Occurs magic len content, Occurs-search magic len content pos),
    )

length-zeros : (n : ℕ) → length (zeros n) ≡ n
unfolding zeros
length-zeros zero = refl
length-zeros (suc n) = ap suc (length-zeros n)

scan_overrun :
    (magic len bound i : ℕ) (bytes : List ℕ)
    → i + length bytes ≤ bound
    → ¬ Occurs magic len bytes
    → scan magic len bound i bytes ≡ undefined
unfolding scan
scan_overrun magic len bound i [] h none_there = ground arith
scan_overrun magic len bound i (b ∷ bytes) h none_there =
    let inside : ltb bound i ≡ false = ground arith in
    elim (Option-cases (spelled len (b ∷ bytes))) [
      | inl short ↦ rw (inside, short)
      | inr (v, read) ↦ elim (Bool-cases (v == magic)) [
        | inl hit ↦ absurd (none_there (here (read ∙ ap some ((==_iff v magic).0 hit))))
        | inr miss ↦
            rw (inside, read, miss)
              (scan_overrun magic len bound (i + 1) bytes (omega arith) (λ o. none_there (there o)))
      ]
    ]

-- For a file that is shorter than the number is long, the search runs on behind the bytes that were
-- read, and, unless the zeros of the buffer complete the number, behind the end of the buffer.
pub has_magic_short_file :
    (magic buf : ℕ) (content : List ℕ)
    → 0 < buf
    → length content < get_magic_length magic
    → buf < 2 ^ 63
    → ¬ Occurs magic (get_magic_length magic) (content ++ zeros (buf - length content))
    → has_magic magic buf true (some content) ≡ undefined
unfolding has_magic
has_magic_short_file magic buf content room short small none_there =
    let len = get_magic_length magic in
    let le = get_magic_length-le magic in
    let ran =
      scan_overrun magic len (last_offset (length content) len) 0
        (content ++ zeros (buf - length content))
        (omega (
          arith,
          length-append content (zeros (buf - length content)),
          length-zeros (buf - length content),
        ))
        none_there in
    ground (arith, ran)
