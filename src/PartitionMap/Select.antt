-- ===== src/PartitionMap/Select.antt =====
-- srclib/libpartition_map/include/libpartition_map/builder.hpp: `getCorrectTableObj` and
-- `setupPartition`, over the two kinds of table.
pub mod Laws
use pmt_renovated.Base.{ℕ, Bool, true, false, Option, none, some, Text, List, if◌then◌else◌}
use pmt_renovated.Helper.Error.{Outcome, done, undefined, ◌>>=◌}
use pmt_renovated.PartitionMap.Partition.{Gpt, Files, Partition}
use pmt_renovated.PartitionMap.Table.{Disks, Table}
use pmt_renovated.PartitionMap.Table.Query
use pmt_renovated.PartitionMap.Dynamic
use pmt_renovated.PartitionMap.Dynamic.{Dynamic, deref}

pub data TableType : Type 0 where
  classic_type dynamic_type : TableType

-- A `BaseTableData`: one of the two classes that derive from it.
pub data BaseTable (G : Gpt) (D : Disks G) : Type 0 where
  classic : Table G D → BaseTable G D
  dynamic : Dynamic G → BaseTable G D

unfoldable pub found_or_undefined :
    {G : Gpt} → Outcome (Option (Partition G)) → Outcome (Option (Partition G))
found_or_undefined o = o >>= λ p. deref p >>= λ q. done (some q)

module _ {G : Gpt} {D : Disks G} where
  unfoldable pub type_of : BaseTable G D → TableType
  type_of (classic t) = classic_type
  type_of (dynamic d) = dynamic_type

  unfoldable pub has_partition : Text → BaseTable G D → Bool
  has_partition n (classic t) = Query.has_partition n t
  has_partition n (dynamic d) = Dynamic.has_partition n d

  -- The object (`none`: the null pointer) and the type that is left in `tType`.
  unfoldable pub get_correct_table_obj :
      Text
      → Option (BaseTable G D)
      → Option (BaseTable G D)
      → Option TableType
      → Option (BaseTable G D) × Option TableType
  unfolding has_partition type_of
  get_correct_table_obj n none c2 t_type = (none, t_type)
  get_correct_table_obj n (some c1) none t_type = (none, t_type)
  get_correct_table_obj n (some c1) (some c2) t_type =
      let first = if has_partition n c1 then some (type_of c1) else t_type in
      let second = if has_partition n c2 then some (type_of c2) else first in
      let object : Option (BaseTable G D) = elim second [
        | none ↦ none
        | some classic_type ↦ some c1
        | some dynamic_type ↦ some c2
      ] in
      (object, second)

  -- `setupPartition`: `done none` is the null pointer, and `none` waits for the user's choice.
  unfoldable pub setup_partition :
      Files → List Text → Text → Option (BaseTable G D) → Option (Outcome (Option (Partition G)))
  unfolding found_or_undefined
  setup_partition files input n none = some (done none)
  setup_partition files input n (some (classic t)) =
      elim (Query.partition_with_dup_check files input n true t) [
        | none ↦ none
        | some o ↦ some (found_or_undefined o)
      ]
  setup_partition files input n (some (dynamic d)) =
      some (found_or_undefined (done (Dynamic.partition n d)))
