-- ===== src/Plugins/Work/Search.antt =====
-- The partition that a plugin finds has the name that was asked for (src/plugins, builder.hpp).
use pmt_renovated.Base.{
  ◌≡◌, sym, ap, ◌∙◌, ◌⊎◌, inl, inr, Bool, true, false, Option, none, some, List, All, Text,
  Bool-cases,
}
use pmt_renovated.Helper.Error.{done}
use pmt_renovated.PartitionMap.Partition.{Gpt, Partition, name}
use pmt_renovated.PartitionMap.Table.{Disks, Table}
use pmt_renovated.PartitionMap.Table.Query.{duplicate_partition_positions}
use pmt_renovated.PartitionMap.Table.Query.Laws.{IsNormal, done_injective}
use pmt_renovated.PartitionMap.Dynamic.{Dynamic}
use pmt_renovated.PartitionMap.Select.{
  TableType, classic, dynamic, has_partition, get_correct_table_obj, setup_partition,
}
use pmt_renovated.PartitionMap.Select.Laws.{setup_partition_finds, setup_partition_absent}
use pmt_renovated.Plugins.Work.{Flags, find}
use pmt_renovated.Plugins.Work.Laws.{after-eq-done, some_injective}

module _ {G : Gpt} {D : Disks G} where
  has_or_not :
      (n : Text) (t : Table G D) (d : Dynamic G)
      → ((has_partition n (classic t) ≡ true) ⊎ (has_partition {D = D} n (dynamic d) ≡ true))
        ⊎ ((has_partition n (classic t) ≡ false) × (has_partition {D = D} n (dynamic d) ≡ false))
  has_or_not n t d = elim (Bool-cases (has_partition n (classic t))) [
    | inl has ↦ inl (inl has)
    | inr no_classic ↦ elim (Bool-cases (has_partition {D = D} n (dynamic d))) [
      | inl has ↦ inl (inr has)
      | inr no_dynamic ↦ inr (no_classic, no_dynamic)
    ]
  ]

  -- In tables of which the classic one has normal partitions whose links can be read, a search that
  -- ends with a partition ends with one of the name that was searched.
  pub find-name :
      (f : Flags G D) (n : Text) (t : Table G D) (d : Dynamic G) (parts : List (Bool × Text))
      (p : Partition G) (t_type : Option TableType)
      → f.partition_tables ≡ (some (classic t), some (dynamic d))
      → All IsNormal t.local_partitions
      → duplicate_partition_positions f.files n t ≡ done parts
      → find f n ≡ some (done (some p, t_type))
      → name p ≡ n
  unfolding find
  find-name f n t d parts p t_type tables normal e found =
      let chosen = get_correct_table_obj n f.partition_tables.0 f.partition_tables.1 none in
      let (q, ran, pair) =
        after-eq-done (setup_partition f.files f.choices n chosen.0)
          (λ o. some (done (o, chosen.1))) found in
      let which : q ≡ some p = ap (λ x. x.0) (done_injective (some_injective pair)) in
      let object = get_correct_table_obj n (some (classic t)) (some (dynamic d)) none in
      let searched : setup_partition f.files f.choices n object.0 ≡ some (done (some p)) =
        ap
          (λ both.
            setup_partition f.files f.choices n (get_correct_table_obj n both.0 both.1 none).0)
          (sym tables)
        ∙ ran
        ∙ ap (λ o. some (done o)) which in
      elim (has_or_not n t d) [
        | inl has ↦ elim (setup_partition_finds f.files f.choices n t d parts normal e has) [
          | inl (unanswered, waits) ↦ absurd (cc (sym waits ∙ searched))
          | inr (answered, p', found', called) ↦
              ap name (some_injective (done_injective (some_injective (sym searched ∙ found'))))
              ∙ called
        ]
        | inr (no_classic, no_dynamic) ↦
            let absent = setup_partition_absent f.files f.choices n t d no_classic no_dynamic in
            absurd (cc (sym absent.0 ∙ searched))
      ]
