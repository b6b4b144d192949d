-- ===== src/PartitionMap/Select/Laws.antt =====
-- The partition that a name leads to, through both tables (builder.hpp).
use pmt_renovated.Base.{
  ◌≡◌, refl, sym, ◌∙◌, ◌⊎◌, inl, inr, Bool, true, false, none, some, Text, List, All, find_if,
  Bool-cases, Option-cases, find_if_sound, find_if-any, text_eq_sound,
}
use pmt_renovated.Helper.Error.{done}
use pmt_renovated.PartitionMap.Partition.{Gpt, Files, Partition, name}
use pmt_renovated.PartitionMap.Table.{Disks, Table}
use pmt_renovated.PartitionMap.Table.Query.{named, duplicate_partition_positions}
use pmt_renovated.PartitionMap.Table.Query.Laws.{IsNormal}
use pmt_renovated.PartitionMap.Table.Query.Choice.{Waits, partition_with_dup_check_finds}
use pmt_renovated.PartitionMap.Dynamic.{Dynamic}
use pmt_renovated.PartitionMap.Dynamic
use pmt_renovated.PartitionMap.Select.{
  classic, dynamic, type_of, has_partition, get_correct_table_obj, setup_partition,
  found_or_undefined,
}

dynamic_found :
    {G : Gpt} (n : Text) (d : Dynamic G)
    → Dynamic.has_partition n d ≡ true
    → (p : Partition G) × (Dynamic.partition n d ≡ some p) × (name p ≡ n)
unfolding Dynamic.has_partition Dynamic.partition named
dynamic_found n d has = elim (Option-cases (find_if (named n) d.local_partitions)) [
  | inl nothing ↦ absurd (cc (find_if-any (named n) d.local_partitions nothing))
  | inr (p, found) ↦
      (p, found, text_eq_sound (name p) n (find_if_sound (named n) d.local_partitions p found))
]

module _ {G : Gpt} {D : Disks G} where
  -- For a name that one of the two tables has, the classic one with normal partitions whose links can
  -- be read: the chosen table leads to a partition of that name, except that it waits where the dynamic
  -- table does not have the name, more than one partition of the classic one has it and the user types none
  -- of their tables.
  pub setup_partition_finds :
      (files : Files) (input : List Text) (n : Text) (t : Table G D) (d : Dynamic G)
      (parts : List (Bool × Text))
      → All IsNormal t.local_partitions
      → duplicate_partition_positions files n t ≡ done parts
      → (has_partition n (classic t) ≡ true) ⊎ (has_partition {D = D} n (dynamic d) ≡ true)
      → let chosen = (get_correct_table_obj n (some (classic t)) (some (dynamic d)) none).0 in
        let waits = (has_partition {D = D} n (dynamic d) ≡ false) × Waits input n true t parts in
        (waits × (setup_partition files input n chosen ≡ none))
        ⊎ ((¬ waits)
            × (p : Partition G) × (setup_partition files input n chosen ≡ some (done (some p)))
            × (name p ≡ n))
  unfolding setup_partition get_correct_table_obj has_partition type_of found_or_undefined
  setup_partition_finds files input n t d parts normal e has =
      elim (Bool-cases (Dynamic.has_partition n d)) [
        | inl in_dynamic ↦
            let (p, found, called) = dynamic_found n d in_dynamic in
            inr (
              λ (absent, waiting). cc (sym in_dynamic ∙ absent),
              p,
              rw (in_dynamic, setup_partition, found, found_or_undefined) refl,
              called,
            )
        | inr elsewhere ↦ elim has [
          | inr in_dynamic ↦ absurd cc
          | inl in_classic ↦
              elim (partition_with_dup_check_finds files input n true t parts normal e in_classic) [
                | inl (waiting, result) ↦
                    inl (
                      (elsewhere, waiting),
                      rw (elsewhere, in_classic, setup_partition, result) refl,
                    )
                | inr (answered, p, found, called) ↦ inr (
                  λ (absent, waiting). answered waiting,
                  p,
                  rw (elsewhere, in_classic, setup_partition, found, found_or_undefined) refl,
                  called,
                )
              ]
        ]
      ]

  -- For a name that neither table has, the result is the null pointer, and no type is left behind.
  pub setup_partition_absent :
      (files : Files) (input : List Text) (n : Text) (t : Table G D) (d : Dynamic G)
      → has_partition n (classic t) ≡ false
      → has_partition {D = D} n (dynamic d) ≡ false
      → let chosen = get_correct_table_obj n (some (classic t)) (some (dynamic d)) none in
        (setup_partition files input n chosen.0 ≡ some (done none)) × (chosen.1 ≡ none)
  unfolding setup_partition get_correct_table_obj
  setup_partition_absent files input n t d no_classic no_dynamic =
      (rw (no_classic, no_dynamic, setup_partition) refl, rw (no_classic, no_dynamic) refl)
