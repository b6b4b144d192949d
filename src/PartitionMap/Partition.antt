-- ===== src/PartitionMap/Partition.antt =====
-- srclib/libpartition_map/include/libpartition_map/partition.hpp: `BasicPartition_t`, over an
-- interface of the GPT library's partition entries and of the file system.
pub mod Laws
pub mod Transfer
use pmt_renovated.Base.{
  ℕ, ◌+◌, ◌*◌, ◌%◌, ◌^◌, Bool, true, false, not, ◌&&◌, Option, none, some, List, [], ◌∷◌, ◌++◌,
  Text, codes, text_eq, is_empty, ◌==◌, if◌then◌else◌,
}
use pmt_renovated.Helper.Error.{Outcome, done, escaped, undefined, ◌>>=◌, throw_new}
use pmt_renovated.Helper.CmdLine.Number.{is_digit, to_string}
use pmt_renovated.PartitionMap.OpenPart.{
  Handle, Devices, openpart_open, openpart_get_size, openpart_get_sector_size, op_wronly, op_rdwr,
  uint64_max,
}

-- `GPTPart` and `GUIDData` of the GPT library.
pub record Gpt : Type 1 where
  pub Part : Type 0
  pub Guid : Type 0
  pub blank : Part
  pub description : Part → Text
  pub first_lba : Part → ℕ
  pub last_lba : Part → ℕ
  pub unique_guid : Part → Guid
  pub guid_eq : Guid → Guid → Bool
  pub guid_from : Text → Guid
  pub guid_text : Guid → Text
  pub is_used : Part → Bool

-- What the file system answers: `std::filesystem::read_symlink` (`none`: it throws) and `exists`.
pub record Files : Type 0 where
  pub read_symlink : Text → Option Text
  pub exists : Text → Bool

abbrev slash : ℕ
slash = 47

-- `std::filesystem::path::filename`: what follows the last slash.
unfoldable pub filename_from : Text → Text → Text
filename_from found [] = found
filename_from found (c ∷ s) = filename_from (if c == slash then s else found) s

unfoldable pub filename : Text → Text
unfolding filename_from
filename path = filename_from path path

unfoldable pub last_char : Text → Option ℕ
last_char [] = none
last_char (c ∷ []) = some c
last_char (c ∷ d ∷ s) = last_char (d ∷ s)

starts_slash : Text → Bool
starts_slash [] = false
starts_slash (c ∷ s) = c == slash

ends_slash : Text → Bool
unfolding last_char
ends_slash path = elim (last_char path) [ none ↦ true | some c ↦ c == slash ]

-- `path / p`, `path.append(p)`: an absolute operand takes the place of the path, and a separator is
-- put in where neither side has one.
unfoldable pub path_append : Text → Text → Text
unfolding starts_slash ends_slash
path_append path p =
    if starts_slash p then p else if ends_slash path then path ++ p else path ++ (slash ∷ p)

u64 : ℕ → ℕ
u64 n = n % 2 ^ 64

pub record Partition (G : Gpt) : Type 0 where
  pub local_table_path : Text
  pub logical_partition_path : Text
  pub local_index : ℕ
  pub gpt_part : G.Part
  pub op : Option Handle
  pub is_logical : Bool

module _ (G : Gpt) where
  -- The default constructor.
  unfoldable pub empty_partition : Partition G
  empty_partition = record {
    local_table_path = [];
    logical_partition_path = [];
    local_index = 0;
    gpt_part = G.blank;
    op = none;
    is_logical = false;
  }

  -- The constructor from four arguments, as `scan` uses it.
  unfoldable pub from_arguments : Text → G.Part → Option Handle → ℕ → Partition G
  from_arguments table part op index = record {
    local_table_path = table;
    logical_partition_path = [];
    local_index = index;
    gpt_part = part;
    op = op;
    is_logical = false;
  }

module _ {G : Gpt} where
  unfoldable pub opened : Devices → Text → ℕ → Partition G → Outcome (Partition G)
  opened devices path flags p = elim (openpart_open devices path flags) [
    | none ↦ throw_new (codes "Cannot create openpart object: invalid handle")
    | some h ↦ done (record p { op = some h })
  ]

  unfoldable pub as_logical_partition : Devices → Partition G → Text → Outcome (Partition G)
  unfolding opened
  as_logical_partition devices orig path = opened devices path op_rdwr (record orig {
    is_logical = true;
    logical_partition_path = path;
    gpt_part = G.blank;
    op = none;
  })

  -- The path that a copy opens again.
  unfoldable pub reopen_path : Partition G → Handle → Text
  reopen_path other h = if other.is_logical then other.logical_partition_path else h.device

  -- The copy constructor.
  unfoldable pub copy_construct : Devices → Partition G → Outcome (Partition G)
  unfolding opened reopen_path
  copy_construct devices other = elim (other.op) [
    | none ↦ done (record other { op = none })
    | some h ↦ opened devices (reopen_path other h) op_rdwr (record other { op = none })
  ]

  -- The copy assignment to another object. Its flag is `O_RDWR`, whose value is that of `OP_WRONLY`.
  unfoldable pub copy_assign : Devices → Partition G → Partition G → Outcome (Partition G)
  unfolding opened reopen_path
  copy_assign devices self other = elim (other.op) [
    | none ↦ done (record other { op = none })
    | some h ↦ opened devices (reopen_path other h) op_wronly (record other { op = none })
  ]

  -- The move constructor: the new object, and what is left in the old one. The paths are moved from:
  -- their strings are left empty.
  unfoldable pub move_construct : Partition G → Partition G × Partition G
  unfolding empty_partition
  move_construct other = (other, empty_partition G)

  normal_only : {A : Type 0} → Partition G → Text → A → Outcome A
  normal_only p message a = if p.is_logical then throw_new message else done a

  unfoldable pub get_gpt_part : Partition G → Outcome G.Part
  unfolding normal_only
  get_gpt_part p = normal_only p (codes "Cannot get GPTPart data: Is logical partition") p.gpt_part

  -- `path()`: `back()` of an empty string is undefined, and it is called for logical partitions too.
  unfoldable pub path : Partition G → Outcome Text
  unfolding last_char is_digit
  path p = elim (last_char p.local_table_path) [
    | none ↦ undefined
    | some c ↦
        let suffix = if is_digit c then codes "p" else [] in
        done (
          if p.is_logical
          then p.logical_partition_path
          else (p.local_table_path ++ suffix) ++ to_string ((p.local_index + 1) % 2 ^ 32))
  ]

  unfoldable pub absolute_path : Files → Partition G → Outcome Text
  unfolding path
  absolute_path files p =
      let target : Outcome Text = elim (files.read_symlink p.logical_partition_path) [
        | none ↦ escaped
        | some t ↦ done t
      ] in
      if p.is_logical then target else path p

  unfoldable pub table_path : Partition G → Outcome Text
  unfolding normal_only
  table_path p =
      normal_only p (codes "Cannot return table path: Is logical partition") p.local_table_path

  unfoldable pub path_by_name : Files → Partition G → Outcome Text
  unfolding path_append path
  path_by_name files p =
      let result = path_append (codes "/dev/block/by-name") (G.description p.gpt_part) in
      let looked : Outcome Text = elim (files.read_symlink result) [
        | none ↦ escaped
        | some target ↦ path p >>= λ own. done (if text_eq target own then result else [])
      ] in
      if p.is_logical
      then done p.logical_partition_path
      else if files.exists (codes "/dev/block/by-name")
      then looked
      else done []

  unfoldable pub name : Partition G → Text
  unfolding filename
  name p = if p.is_logical then filename p.logical_partition_path else G.description p.gpt_part

  unfoldable pub table_name : Partition G → Outcome Text
  unfolding normal_only filename
  table_name p =
      normal_only p (codes "Cannot return table name: Is logical partition")
        (filename p.local_table_path)

  unfoldable pub guid_as_string : Partition G → Outcome Text
  unfolding normal_only
  guid_as_string p =
      normal_only p (codes "Cannot return table name: Is logical partition")
        (G.guid_text (G.unique_guid p.gpt_part))

  unfoldable pub index : Partition G → Outcome ℕ
  unfolding normal_only
  index p = normal_only p (codes "Cannot return index: Is logical partition") p.local_index

  unfoldable pub size : Partition G → Outcome ℕ
  unfolding openpart_get_size
  size p =
      let n = openpart_get_size p.op in
      if n == uint64_max then throw_new (codes "Cannot get size of " ++ name p) else done n

  unfoldable pub start : Partition G → Outcome ℕ
  unfolding normal_only openpart_get_sector_size u64
  start p =
      normal_only p (codes "Cannot return start address: Is logical partition")
        (u64 (G.first_lba p.gpt_part * openpart_get_sector_size p.op))

  unfoldable pub end_address : Partition G → Outcome ℕ
  unfolding normal_only openpart_get_sector_size u64
  end_address p =
      normal_only p (codes "Cannot return end address: Is logical partition")
        (u64 (u64 (G.last_lba p.gpt_part + 1) * openpart_get_sector_size p.op))

  unfoldable pub guid : Partition G → Outcome G.Guid
  unfolding normal_only
  guid p =
      normal_only p (codes "Cannot return GPTData GUID: Is logical partition")
        (G.unique_guid p.gpt_part)

  -- `set`, `setPartitionPath`, `setIndex`, `setGptPart`, `setOpenPart`.
  unfoldable pub set : Text → G.Part → Option Handle → ℕ → Partition G → Outcome (Partition G)
  unfolding normal_only
  set table part handle i p =
      normal_only p (codes "This is not a normal partition object!")
        (record p { gpt_part = part; op = handle; local_table_path = table; local_index = i })

  unfoldable pub set_partition_path : Text → Partition G → Outcome (Partition G)
  set_partition_path new p =
      if not p.is_logical
      then throw_new (codes "This is not a logical partition object!")
      else done (record p { logical_partition_path = new })

  unfoldable pub set_index : ℕ → Partition G → Outcome (Partition G)
  unfolding normal_only
  set_index i p =
      normal_only p (codes "This is not a normal partition object!") (record p { local_index = i })

  unfoldable pub set_gpt_part : G.Part → Partition G → Outcome (Partition G)
  unfolding normal_only
  set_gpt_part part p =
      normal_only p (codes "This is not a normal partition object!") (record p { gpt_part = part })

  unfoldable pub set_open_part : Option Handle → Partition G → Outcome (Partition G)
  unfolding normal_only
  set_open_part handle p =
      normal_only p (codes "This is not a normal partition object!") (record p { op = handle })

  unfoldable pub is_super_partition : Partition G → Outcome Bool
  unfolding guid
  is_super_partition p =
      (if p.is_logical then throw_new (codes "This is not a normal partition object!") else guid p)
      >>= λ g. done (G.guid_eq g (G.guid_from (codes "89A12DE1-5E41-4CB3-8B4C-B1441EB5DA38")))

  unfoldable pub empty : Partition G → Bool
  empty p =
      if p.is_logical
      then is_empty p.logical_partition_path
      else not (G.is_used p.gpt_part) && is_empty p.local_table_path

  -- `operator==` of two partitions, and of a partition and a GUID.
  unfoldable pub equal : Partition G → Partition G → Bool
  equal a b =
      if a.is_logical
      then text_eq a.logical_partition_path b.logical_partition_path
      else text_eq a.local_table_path b.local_table_path
        && (a.local_index == b.local_index
            && G.guid_eq (G.unique_guid a.gpt_part) (G.unique_guid b.gpt_part))

  unfoldable pub equal_guid : Partition G → G.Guid → Outcome Bool
  unfolding normal_only
  equal_guid p g =
      normal_only p (codes "This is not a normal partition object!")
        (G.guid_eq (G.unique_guid p.gpt_part) g)
