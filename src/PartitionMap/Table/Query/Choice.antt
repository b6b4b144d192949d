-- ===== src/PartitionMap/Table/Query/Choice.antt =====
-- The partition that `partitionWithDupCheck` ends with (PartitionTableData.cpp).
use mathlib.Core.List.{Memᴰ}
use pmt_renovated.Base.{
  ◌≡◌, refl, sym, ap, ◌∙◌, ◌⊎◌, inl, inr, Bool, true, false, ◌&&◌, none, some, List, [], ◌∷◌, map,
  Text, arith, ltb, ltb→lt, lt→ltb, ◌<◌, length, filterb, &&-true, contains, Bool-cases,
  Option-cases, All, text_eq, text_eq_sound, text_eq_refl,
}
use pmt_renovated.Helper.Error.{done, undefined}
use pmt_renovated.PartitionMap.Partition.{Gpt, Files, Partition, name}
use pmt_renovated.PartitionMap.Table.{Disks, Table}
use pmt_renovated.PartitionMap.Table.Query.{
  named, count_named, partition, has_partition, has_duplicate_named_partition,
  duplicate_partition_positions, choose, partition_with_dup_check,
}
use pmt_renovated.PartitionMap.Table.Query.Laws.{IsNormal, table_of, partition_iff, partition_sound}
use pmt_renovated.PartitionMap.Table.Query.Positions.{
  positions_sound, positions_nonempty, positions_absent, count_absent, ||-right, choose_sound,
  choose-none, none-choose, count_named-length, chosen_part,
}

module _ {G : Gpt} {D : Disks G} where
  -- A search with the table of one of the entries succeeds.
  position_found :
      (files : Files) (n : Text) (t : Table G D) (parts : List (Bool × Text)) (part : Bool × Text)
      → All IsNormal t.local_partitions
      → duplicate_partition_positions files n t ≡ done parts
      → Memᴰ part parts
      → (p : Partition G) × (partition n part.1 t ≡ done (some p)) × (name p ≡ n)
  unfolding duplicate_partition_positions named
  position_found files n t parts part normal e m =
      let (p, among, same, of_table) =
        positions_sound files n t.local_partitions parts part normal e m in
      let own : text_eq (table_of p) part.1 ≡ true =
        ap (λ x. text_eq x part.1) of_table ∙ text_eq_refl part.1 in
      let (q, found) =
        (partition_iff n part.1 t normal).1
          (p, among, text_eq_sound (name p) n same, ||-right _ own) in
      let (there, called, rest) = partition_sound n part.1 t q normal found in (q, found, called)

  some_position :
      (files : Files) (n : Text) (t : Table G D)
      → has_partition n t ≡ true
      → ¬ (duplicate_partition_positions files n t ≡ done [])
  unfolding has_partition duplicate_partition_positions
  some_position files n t has e = positions_nonempty files n t.local_partitions has e

  -- The lookup asks and gets no answer: the check is on, more than one partition has the name, and the
  -- user types none of their tables.
  abbrev pub Waits : List Text → Text → Bool → Table G D → List (Bool × Text) → Type 0
  Waits input n check t parts =
      (check ≡ true)
      × (1 < length (filterb (λ p. text_eq (name p) n) t.local_partitions))
      × All (λ word. contains (map (λ part. part.1) parts) word ≡ false) input

  asking-check :
      (n : Text) (check : Bool) (t : Table G D)
      → (ltb 1 (has_duplicate_named_partition n t) && check) ≡ true
      → (check ≡ true) × (1 < length (filterb (λ p. text_eq (name p) n) t.local_partitions))
  unfolding has_duplicate_named_partition
  asking-check n check t asking =
      let (many, on) = &&-true _ check asking in
      let counted = count_named-length n t.local_partitions in
      let several = ltb→lt 1 (count_named n t.local_partitions) many in (on, omega arith)

  check-asking :
      (n : Text) (check : Bool) (t : Table G D)
      → check ≡ true
      → 1 < length (filterb (λ p. text_eq (name p) n) t.local_partitions)
      → (ltb 1 (has_duplicate_named_partition n t) && check) ≡ true
  unfolding has_duplicate_named_partition
  check-asking n check t on several =
      let counted = count_named-length n t.local_partitions in
      let many : ltb 1 (count_named n t.local_partitions) ≡ true = lt→ltb _ _ (omega arith) in
      rw (many, on) refl

  -- For a name that the table has, among normal partitions whose links can be read: the lookup waits when
  -- the check is on, more than one partition has the name and the user types none of their tables; in
  -- every other case it gives a partition of that name.
  pub partition_with_dup_check_finds :
      (files : Files) (input : List Text) (n : Text) (check : Bool) (t : Table G D)
      (parts : List (Bool × Text))
      → All IsNormal t.local_partitions
      → duplicate_partition_positions files n t ≡ done parts
      → has_partition n t ≡ true
      → (Waits input n check t parts × (partition_with_dup_check files input n check t ≡ none))
        ⊎ ((¬ Waits input n check t parts)
            × (p : Partition G) × (partition_with_dup_check files input n check t
                ≡ some (done (some p)))
            × (name p ≡ n))
  unfolding partition_with_dup_check
  partition_with_dup_check_finds files input n check t parts normal e has =
      elim (Bool-cases (ltb 1 (has_duplicate_named_partition n t) && check)) [
        | inr silent ↦
            let (p, found, called) = first silent parts refl in
            inr (
              λ (on, several, others). cc (sym (check-asking n check t on several) ∙ silent),
              p,
              found,
              called,
            )
        | inl asking ↦ elim (Option-cases (choose (map (λ part. part.1) parts) input)) [
          | inl waiting ↦
              let (on, several) = asking-check n check t asking in
              inl (
                (on, several, choose-none (map (λ part. part.1) parts) input waiting),
                rw (partition_with_dup_check, e, asking, waiting) refl,
              )
          | inr (choice, answered) ↦
              let known = choose_sound (map (λ part. part.1) parts) input choice answered in
              let (part, among, same) = chosen_part parts choice known in
              let (p, found, called) = position_found files n t parts part normal e among in
              inr (
                λ (on, several, others).
                    cc (sym (none-choose (map (λ q. q.1) parts) input others) ∙ answered),
                p,
                rw (partition_with_dup_check, e, asking, answered)
                    (ap some (ap (λ c. partition n c t) (sym same) ∙ found)),
                called,
              )
        ]
      ]
    where
      first :
          (ltb 1 (has_duplicate_named_partition n t) && check) ≡ false
          → (list : List (Bool × Text)) → parts ≡ list
          → (p : Partition G) × (partition_with_dup_check files input n check t
              ≡ some (done (some p)))
            × (name p ≡ n)
      first silent [] nothing = absurd (some_position files n t has (e ∙ ap done nothing))
      first silent (part ∷ others) some_part =
          let (p, found, called) =
            position_found files n t (part ∷ others) part normal (e ∙ ap done some_part)
              (Memᴰ.head refl) in
          (p, rw (partition_with_dup_check, e, silent, some_part) (ap some found), called)

  -- For a name that the table does not have, the lookup reads the first entry of an empty vector.
  pub partition_with_dup_check_absent :
      (files : Files) (input : List Text) (n : Text) (check : Bool) (t : Table G D)
      → has_partition n t ≡ false
      → partition_with_dup_check files input n check t ≡ some undefined
  unfolding partition_with_dup_check duplicate_partition_positions has_partition
      has_duplicate_named_partition
  partition_with_dup_check_absent files input n check t absent =
      rw
        (
          partition_with_dup_check,
          duplicate_partition_positions,
          positions_absent files n t.local_partitions absent,
          has_duplicate_named_partition,
          count_absent n t.local_partitions absent,
        )
        refl
