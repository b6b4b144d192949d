-- ===== src/PartitionMap/Table/Query.antt =====
-- PartitionTableData.cpp: the questions that are asked of a scanned table, and the changes that do
-- not scan.
pub mod Laws
pub mod Positions
pub mod Choice
use pmt_renovated.Base.{
  ℕ, zero, suc, ◌+◌, ◌*◌, ◌%◌, ◌^◌, Bool, true, false, not, ◌&&◌, ◌||◌, Option, none, some, List,
  [], ◌∷◌, ◌++◌, map, Text, codes, text_eq, contains, is_empty, ltb, ◌==◌, if◌then◌else◌, any,
}
use pmt_renovated.Helper.Error.{Outcome, done, undefined, ◌>>=◌, throw_new}
use pmt_renovated.PartitionMap.OpenPart.{uint64_max}
use pmt_renovated.PartitionMap.Partition.{
  Gpt, Files, Partition, name, table_name, index, size, path_by_name, get_gpt_part, equal,
}
use pmt_renovated.PartitionMap.Table.{Disks, System, Table, assign, lookup, block_path}

module _ {G : Gpt} where
  unfoldable pub named : Text → Partition G → Bool
  named n p = text_eq (name p) n

  -- `part.tableName() == name`
  unfoldable pub in_table : Text → Partition G → Outcome Bool
  in_table t p = table_name p >>= λ s. done (text_eq s t)

  unfoldable pub select_table : Text → List (Partition G) → Outcome (List (Partition G))
  unfolding in_table
  select_table t [] = done []
  select_table t (p ∷ ps) =
      in_table t p >>= λ here. select_table t ps >>= λ rest. done (if here then p ∷ rest else rest)

  -- The test of `partition`: the name, and the table if one is given.
  unfoldable pub matches : Text → Text → Partition G → Outcome Bool
  unfolding named in_table
  matches n from p =
      let both = if named n p then in_table from p else done false in
      if is_empty from then done (named n p) else both

  unfoldable pub find_match : Text → Text → List (Partition G) → Outcome (Option (Partition G))
  find_match n from [] = done none
  find_match n from (p ∷ ps) =
      let rest = find_match n from ps in
      matches n from p >>= λ yes. if yes then done (some p) else rest

  unfoldable pub count_named : Text → List (Partition G) → ℕ
  count_named n [] = 0
  count_named n (p ∷ ps) = if named n p then suc (count_named n ps) else count_named n ps

  unfoldable pub positions : Files → Text → List (Partition G) → Outcome (List (Bool × Text))
  unfolding named
  positions files n [] = done []
  positions files n (p ∷ ps) =
      let rest = positions files n ps in
      let here = path_by_name files p >>= λ by_name. table_name p >>= λ table.
      rest >>= λ others. done ((not (is_empty by_name), table) ∷ others) in
      if named n p then here else rest

  -- `BasicInfo`: name, size, and whether it is logical.
  unfoldable pub about : Bool → List (Partition G) → Outcome (List (Text × ℕ × Bool))
  about logical [] = done []
  about logical (p ∷ ps) =
      size p >>= λ n. about logical ps >>= λ rest. done ((name p, n, logical) ∷ rest)

  unfoldable pub find_index : Text → ℕ → List (Partition G) → Outcome Text
  unfolding in_table
  find_index t i [] = done []
  find_index t i (p ∷ ps) =
      let rest = find_index t i ps in
      in_table t p >>= λ here. index p >>= λ j. if here && j == i then done (name p) else rest

  unfoldable pub all_equal : List (Partition G) → List (Partition G) → Bool
  all_equal [] [] = true
  all_equal [] (q ∷ qs) = false
  all_equal (p ∷ ps) [] = false
  all_equal (p ∷ ps) (q ∷ qs) = equal p q && all_equal ps qs

-- The loop that asks for a table, over the words that the user types; `none` when they run out.
unfoldable pub choose : List Text → List Text → Option Text
choose names [] = none
choose names (word ∷ words) =
    let rest = choose names words in if contains names word then some word else rest

module _ {G : Gpt} {D : Disks G} where
  unfoldable pub partitions_by_table : Text → Table G D → Outcome (List (Partition G))
  unfolding select_table
  partitions_by_table n t =
      if contains t.local_table_names n then select_table n t.local_partitions else done []

  unfoldable pub table_paths : Table G D → List Text
  table_paths t = map (λ n. codes "/dev/block/" ++ n) t.local_table_names

  unfoldable pub gpt_data_of : Text → Table G D → Outcome D.Data
  unfolding lookup
  gpt_data_of n t = elim (lookup t.gpt_data (block_path n)) [
    | none ↦ throw_new (codes "Can't find GPT data of " ++ n)
    | some gpt ↦ done gpt
  ]

  unfoldable pub about_partitions : Table G D → Outcome (List (Text × ℕ × Bool))
  unfolding about
  about_partitions t = about false t.local_partitions

  unfoldable pub about_partitions_by_table : Text → Table G D → Outcome (List (Text × ℕ × Bool))
  unfolding about select_table
  about_partitions_by_table n t = select_table n t.local_partitions >>= λ ps. about false ps

  unfoldable pub partition : Text → Text → Table G D → Outcome (Option (Partition G))
  unfolding find_match
  partition n from t = find_match n from t.local_partitions

  unfoldable pub duplicate_partition_positions :
      Files → Text → Table G D → Outcome (List (Bool × Text))
  unfolding positions
  duplicate_partition_positions files n t = positions files n t.local_partitions

  unfoldable pub has_duplicate_named_partition : Text → Table G D → ℕ
  unfolding count_named
  has_duplicate_named_partition n t = count_named n t.local_partitions

  unfoldable pub has_partition : Text → Table G D → Bool
  unfolding any named
  has_partition n t = any (named n) t.local_partitions

  unfoldable pub has_table : Text → Table G D → Bool
  has_table n t = contains t.local_table_names n

  unfoldable pub is_has_super_partition : Table G D → Bool
  unfolding any named
  is_has_super_partition t = any (named (codes "super")) t.local_partitions

  -- `partitionWithDupCheck`; `none`: it still waits for input.
  unfoldable pub partition_with_dup_check :
      Files → List Text → Text → Bool → Table G D → Option (Outcome (Option (Partition G)))
  unfolding choose
  partition_with_dup_check files input n check t =
      let asked : List (Bool × Text) → Option (Outcome (Option (Partition G))) = λ parts.
        elim (choose (map (λ part. part.1) parts) input) [
          | none ↦ none
          | some choice ↦ some (partition n choice t)
        ] in
      let first : List (Bool × Text) → Outcome (Option (Partition G)) =
        λ parts. elim parts [ [] ↦ undefined | part ∷ others ↦ partition n part.1 t ] in
      elim (duplicate_partition_positions files n t) [
        | done parts ↦
            if ltb 1 (has_duplicate_named_partition n t) && check
            then asked parts
            else some (first parts)
        | failed ↦ some (failed >>= λ parts. first parts)
      ]

  unfoldable pub free_space_of : Text → Table G D → Outcome ℕ
  unfolding gpt_data_of
  free_space_of n t =
      if contains t.local_table_names n
      then (gpt_data_of n t >>= λ gpt. done (D.free_sectors gpt * D.block_size gpt % 2 ^ 64))
      else done uint64_max

  -- `sync(name)` and `sync()`.
  unfoldable pub sync_one : Text → Table G D → Outcome Bool
  unfolding gpt_data_of
  sync_one n t = gpt_data_of n t >>= λ gpt. done (D.save_gpt gpt && D.save_mbr gpt)

  unfoldable pub sync_names : List Text → Bool → Table G D → Outcome Bool
  unfolding sync_one
  sync_names [] success t = done success
  sync_names (n ∷ names) success t = sync_one n t >>= λ ok. sync_names names (success && ok) t

  unfoldable pub sync : Table G D → Outcome Bool
  unfolding sync_names
  sync t = sync_names t.local_table_names true t

  unfoldable pub empty : Table G D → Bool
  empty t = is_empty t.local_partitions && is_empty t.gpt_data

  unfoldable pub valid : Table G D → Bool
  unfolding any
  valid t =
      not (any (λ pair. not (D.verify pair.1 == 0) && not (D.check_header pair.1 == 3)) t.gpt_data)

  unfoldable pub set_tables : List Text → Table G D → Table G D
  set_tables names t = record t { local_table_names = names }

  unfoldable pub set_gpt_data_of : Text → D.Data → Table G D → Table G D
  unfolding lookup assign
  set_gpt_data_of n gpt t = elim (lookup t.gpt_data (codes "/dev/block/" ++ n)) [
    | none ↦ t
    | some old ↦ record t { gpt_data = assign (codes "/dev/block/" ++ n) gpt t.gpt_data }
  ]

  unfoldable pub set_auto_scan : Bool → Table G D → Table G D
  set_auto_scan state t = record t { build_auto = state }

  unfoldable pub clear : Table G D → Table G D
  clear t = record t { local_partitions = []; local_table_names = []; gpt_data = [] }

  unfoldable pub reset : Table G D → Table G D
  unfolding clear
  reset t = record (clear t) { build_auto = true }

  -- `operator()(name, index)`: `none` is the null pointer.
  unfoldable pub part_at : Text → ℕ → Table G D → Outcome (Option G.Part)
  unfolding find_index
  part_at n i t =
      let found = find_index n i t.local_partitions >>= λ own. partition own [] t >>= λ p. elim p [
        | none ↦ undefined
        | some q ↦ get_gpt_part q >>= λ part. done (some part)
      ] in
      if has_table n t then found else done none
