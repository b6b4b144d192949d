-- ===== src/Manager/Inputs/Laws.antt =====
-- What the plugins work on after their arguments are read (Plugin.hpp).
use pmt_renovated.Base.{
  ℕ, ◌%◌, ◌≡◌, ◌≢◌, refl, ap, ◌∙◌, subst, inl, inr, Bool, true, false, List, [], ◌∷◌, ◌++◌, Text,
  arith, ◌==◌, ==_refl, if-cases, if_true, if_false, any, contains, All, Option, some,
}
use pmt_renovated.Helper.Error.{done}
use pmt_renovated.Helper.Error.Laws.{>>=-eq-done}
use pmt_renovated.Helper.CmdLine.Split.{split, join, Piece, split-join}
use pmt_renovated.PartitionMap.Partition.{Gpt, Partition, filename, size}
use pmt_renovated.PartitionMap.Table.{Disks}
use pmt_renovated.PartitionMap.Table.Query.Laws.{done_injective}
use pmt_renovated.PartitionMap.Dynamic.{deref}
use pmt_renovated.PartitionMap.Dynamic.Laws.{deref-done}
use pmt_renovated.PartitionMap.Select.{BaseTable, has_partition}
use pmt_renovated.Manager.Inputs.{
  refuse_duplicates, split_if_has_delim, or_whole, process_command_line, fitting_size,
  lookup_partition, setup_buffer_size,
}

-- No element occurs among those of `seen` or among the elements in front of it.
abbrev pub Fresh : List Text → List Text → Type 0
Fresh seen [] = Unit
Fresh seen (s ∷ vec) = (contains seen s ≡ false) × Fresh (s ∷ seen) vec

refuse_duplicates_iff_sound :
    (seen vec : List Text) → refuse_duplicates seen vec ≡ done tt → Fresh seen vec
unfolding refuse_duplicates
refuse_duplicates_iff_sound seen [] e = tt
refuse_duplicates_iff_sound seen (s ∷ vec) e = elim (if-cases (contains seen s) _ _ e) [
  | inl (again, thrown) ↦ absurd cc
  | inr (new, rest) ↦ (new, refuse_duplicates_iff_sound (s ∷ seen) vec rest)
]

refuse_duplicates_complete :
    (seen vec : List Text) → Fresh seen vec → refuse_duplicates seen vec ≡ done tt
unfolding refuse_duplicates
refuse_duplicates_complete seen [] fresh = refl
refuse_duplicates_complete seen (s ∷ vec) (new, rest) =
    if_false _ _ new ∙ refuse_duplicates_complete (s ∷ seen) vec rest

any-append : (p : ℕ → Bool) (s t : Text) → any p t ≡ true → any p (s ++ t) ≡ true
unfolding any
any-append p [] t h = h
any-append p (c ∷ s) t h = ground (arith, any-append p s t h)

join_delim :
    (delim : ℕ) (w v : Text) (ws : List Text)
    → any (λ c. c == delim) (join delim (w ∷ v ∷ ws)) ≡ true
unfolding any join
join_delim delim w v ws =
    any-append (λ c. c == delim) w (delim ∷ join delim (v ∷ ws)) (ground (arith, ==_refl delim))

-- A list of at least two texts of which none is empty, none holds the delimiter and none occurs
-- twice, joined with the delimiter, is read back as that list.
pub split_if_has_delim-join :
    (delim : ℕ) (w v : Text) (ws : List Text)
    → All (Piece delim) (w ∷ v ∷ ws)
    → Fresh [] (w ∷ v ∷ ws)
    → split_if_has_delim (join delim (w ∷ v ∷ ws)) delim true ≡ done (w ∷ v ∷ ws)
unfolding split_if_has_delim
split_if_has_delim-join delim w v ws pieces fresh =
    if_true _ _ (join_delim delim w v ws)
    ∙ rw (split-join delim (w ∷ v ∷ ws) pieces, refuse_duplicates_complete [] (w ∷ v ∷ ws) fresh)
        refl

Fresh-or_whole : (vec : List Text) (s : Text) → Fresh [] vec → Fresh [] (or_whole vec s)
unfolding or_whole contains
Fresh-or_whole [] [] fresh = tt
Fresh-or_whole [] (c ∷ s) fresh = (refl, tt)
Fresh-or_whole (v ∷ vec) s fresh = fresh

split_if_has_delim-Fresh :
    (s : Text) (delim : ℕ) (vec : List Text)
    → split_if_has_delim s delim true ≡ done vec
    → Fresh [] vec
unfolding split_if_has_delim
split_if_has_delim-Fresh s delim vec e = elim (if-cases (any (λ c. c == delim) s) _ _ e) [
  | inl (several, checked) ↦
      let (u, passed, same) = >>=-eq-done (refuse_duplicates [] (split s delim)) _ checked in
      subst (Fresh []) (done_injective same) (refuse_duplicates_iff_sound [] (split s delim) passed)
  | inr (one, nothing) ↦ subst (Fresh []) (done_injective nothing) tt
]

-- Where the arguments are accepted with the check for bad usage, no text occurs twice in either list.
pub process_command_line-Fresh :
    (s1 s2 : Text) (delim : ℕ) (vec1 vec2 : List Text)
    → process_command_line s1 s2 delim true ≡ done (vec1, vec2)
    → Fresh [] vec1 × Fresh [] vec2
unfolding process_command_line
process_command_line-Fresh s1 s2 delim vec1 vec2 e =
    let (v1, first, rest) = >>=-eq-done (split_if_has_delim s1 delim true) _ e in
    let (v2, second, last) = >>=-eq-done (split_if_has_delim s2 delim true) _ rest in
    let both = done_injective last in
    (
      subst (Fresh []) (ap (λ x. x.0) both)
          (Fresh-or_whole v1 s1 (split_if_has_delim-Fresh s1 delim v1 first)),
      subst (Fresh []) (ap (λ x. x.1) both)
          (Fresh-or_whole v2 s2 (split_if_has_delim-Fresh s2 delim v2 second)),
    )

fitting_size_divides :
    (total buffer result : ℕ)
    → fitting_size total buffer ≡ done result
    → (result ≢ 0) × (total % result ≡ 0)
unfolding fitting_size
fitting_size_divides total buffer result e = elim (if-cases (buffer == 0) _ _ e) [
  | inl (none_given, stuck) ↦ absurd cc
  | inr (given, e1) ↦ elim (if-cases (total % buffer == 0) _ _ e1) [
    | inl (divides, same) ↦ fits buffer (done_injective same) (ground arith) (ground arith)
    | inr (other, e2) ↦ elim (if-cases (total % 4096 == 0) _ _ e2) [
      | inl (divides, same) ↦ fits 4096 (done_injective same) (ground arith) (ground arith)
      | inr (odd, same) ↦ fits 1 (done_injective same) (ground arith) (omega arith)
    ]
  ]
]
  where
    fits : (n : ℕ) → n ≡ result → n ≢ 0 → total % n ≡ 0 → (result ≢ 0) × (total % result ≡ 0)
    fits n same positive divides =
        (subst (λ x. x ≢ 0) same positive, subst (λ x. total % x ≡ 0) same divides)

-- For an entry that names a partition of the table: the buffer size that is set up is not 0 and
-- divides the size of a partition that the table gives for that name.
pub setup_buffer_size_divides :
    {G : Gpt} {D : Disks G} (file_size : Text → Option ℕ) (buffer : ℕ) (entry : Text)
    (table : BaseTable G D) (result : ℕ)
    → has_partition (filename entry) table ≡ true
    → setup_buffer_size file_size buffer entry table ≡ done result
    → (p : Partition G) × (lookup_partition (filename entry) table ≡ done (some p))
      × (total : ℕ) × (size p ≡ done total)
      × (result ≢ 0)
      × (total % result ≡ 0)
unfolding setup_buffer_size
setup_buffer_size_divides file_size buffer entry table result has e =
    elim (if-cases (has_partition (filename entry) table) _ _ e) [
      | inr (absent, e1) ↦ absurd cc
      | inl (there, e1) ↦
          let (o, looked, e2) = >>=-eq-done (lookup_partition (filename entry) table) _ e1 in
          let (p, found, e3) = >>=-eq-done (deref o) _ e2 in
          let (total, measured, e4) = >>=-eq-done (size p) _ e3 in
          let (positive, divides) = fitting_size_divides total buffer result e4 in
          (p, looked ∙ ap done (deref-done o found), total, measured, positive, divides)
    ]
