-- ===== src/Manager/Inputs.antt =====
-- include/PartitionManager/Plugin.hpp: `splitIfHasDelim`, `processCommandLine` and `setupBufferSize`,
-- which the plugins apply to their arguments.
pub mod Laws
use pmt_renovated.Base.{
  ℕ, zero, ◌%◌, ◌^◌, Bool, true, false, Option, none, some, List, [], ◌∷◌, Text, codes, ◌==◌,
  if◌then◌else◌, any, contains, is_empty,
}
use pmt_renovated.Helper.Error.{Outcome, done, undefined, ◌>>=◌, throw_coded, ex_usage}
use pmt_renovated.Helper.CmdLine.Split.{split}
use pmt_renovated.PartitionMap.Partition.{Gpt, Partition, filename, size}
use pmt_renovated.PartitionMap.Table.{Disks}
use pmt_renovated.PartitionMap.Table.Query
use pmt_renovated.PartitionMap.Dynamic
use pmt_renovated.PartitionMap.Dynamic.{deref}
use pmt_renovated.PartitionMap.Select.{BaseTable, classic, dynamic, has_partition}

-- The loop over the elements, with the set of those seen.
unfoldable pub refuse_duplicates : List Text → List Text → Outcome (Unit {0})
refuse_duplicates seen [] = done tt
refuse_duplicates seen (s ∷ vec) =
    let rest = refuse_duplicates (s ∷ seen) vec in
    if contains seen s
    then throw_coded (codes "Duplicate element in your inputs!") ex_usage
    else rest

unfoldable pub split_if_has_delim : Text → ℕ → Bool → Outcome (List Text)
unfolding refuse_duplicates any
split_if_has_delim s delim check_for_bad_usage =
    let vec = split s delim in
    let checked = refuse_duplicates [] vec >>= λ u. done vec in
    if any (λ c. c == delim) s then (if check_for_bad_usage then checked else done vec) else done []

-- `if (vec.empty() && !s.empty()) vec.push_back(s)`
unfoldable pub or_whole : List Text → Text → List Text
or_whole [] [] = []
or_whole [] (c ∷ s) = (c ∷ s) ∷ []
or_whole (v ∷ vec) s = v ∷ vec

unfoldable pub process_command_line : Text → Text → ℕ → Bool → Outcome (List Text × List Text)
unfolding split_if_has_delim or_whole
process_command_line s1 s2 delim check_for_bad_usage =
    split_if_has_delim s1 delim check_for_bad_usage >>= λ vec1.
    split_if_has_delim s2 delim check_for_bad_usage >>= λ vec2.
    done (or_whole vec1 s1, or_whole vec2 s2)

-- The size that is used for an entry of `total` bytes. A remainder by 0 is undefined.
unfoldable pub fitting_size : ℕ → ℕ → Outcome ℕ
fitting_size total buffer =
    if buffer == 0
    then undefined
    else if total % buffer == 0
    then done buffer
    else if total % 4096 == 0
    then done 4096
    else done 1

module _ {G : Gpt} {D : Disks G} where
  unfoldable pub lookup_partition : Text → BaseTable G D → Outcome (Option (Partition G))
  lookup_partition n (classic t) = Query.partition n [] t
  lookup_partition n (dynamic d) = done (Dynamic.partition n d)

  -- `setupBufferSize`; the files of the system, by path, with their sizes as `uint64_t`.
  unfoldable pub setup_buffer_size : (Text → Option ℕ) → ℕ → Text → BaseTable G D → Outcome ℕ
  unfolding fitting_size lookup_partition
  setup_buffer_size file_size buffer entry table =
      let of_partition = lookup_partition (filename entry) table >>= λ o.
      deref o >>= λ p. size p >>= λ total. fitting_size total buffer in
      let of_file : Outcome ℕ = elim (file_size entry) [
        | none ↦ done buffer
        | some total ↦ fitting_size total buffer
      ] in
      if has_partition (filename entry) table then of_partition else of_file
