-- ===== src/PartitionMap/Table.antt =====
-- srclib/libpartition_map: `PartitionTableData` (table_data_collection.hpp, PartitionTableData.cpp),
-- over an interface of the GPT library's table objects and of the system's files.
pub mod Query
pub mod Scan
pub mod Removal
use pmt_renovated.Base.{
  ℕ, zero, suc, ◌+◌, ◌*◌, ◌%◌, ◌^◌, Bool, true, false, not, ◌&&◌, ◌||◌, Option, none, some, List,
  [], ◌∷◌, ◌++◌, map, Text, codes, text_eq, contains, is_empty, ltb, ◌==◌, if◌then◌else◌, filterb,
  find_if,
}
use pmt_renovated.Helper.Error.{Outcome, done, undefined, ◌>>=◌, throw_new}
use pmt_renovated.Helper.CmdLine.Number.{is_digit, to_string}
use pmt_renovated.PartitionMap.OpenPart.{Devices, openpart_open, op_rdwr, uint64_max}
use pmt_renovated.PartitionMap.Partition.{
  Gpt, Files, Partition, from_arguments, name, table_name, index, size, path_by_name, last_char,
  path_append, get_gpt_part, filename,
}

-- `GPTData` of the GPT library.
pub record Disks (G : Gpt) : Type 1 where
  pub Data : Type 0
  -- `LoadPartitions` of a new object.
  pub load : Text → Option Data
  pub block_size : Data → ℕ
  pub num_parts : Data → ℕ
  pub entry : Data → ℕ → G.Part
  -- The first result of `FindFreeBlocks`.
  pub free_sectors : Data → ℕ
  pub save_gpt : Data → Bool
  pub save_mbr : Data → Bool
  -- Whether `Verify()` is 0, and `CheckHeaderValidity()`.
  pub verify : Data → ℕ
  pub check_header : Data → ℕ
  pub disk_guid : Data → G.Guid

-- What the system says: `readFile` of the `removable` file of a device, by the device's name; the
-- entries of `/dev/block` in the order of their names, with the result of `is_block_file`; and whether
-- the `device` entry of a name exists.
pub record System : Type 0 where
  pub removable : Text → Option Text
  pub block_entries : Option (List (Text × Bool))
  pub is_really_table : Text → Bool
  pub devices : Devices
  pub files : Files

pub record Table (G : Gpt) (D : Disks G) : Type 0 where
  pub gpt_data : List (Text × D.Data)
  pub local_partitions : List (Partition G)
  pub local_table_names : List Text
  pub build_auto : Bool
  pub is_ufs : Bool

-- `operator<` of `std::string`.
unfoldable pub text_lt : Text → Text → Bool
text_lt s [] = false
text_lt [] (d ∷ t) = true
text_lt (c ∷ s) (d ∷ t) = ltb c d || (c == d && text_lt s t)

-- `std::map::operator[]` with an assignment, and `find`.
unfoldable pub assign : {A : Type 0} → Text → A → List (Text × A) → List (Text × A)
assign key v [] = (key, v) ∷ []
assign key v ((k, w) ∷ entries) =
    let rest = assign key v entries in if text_eq k key then (k, v) ∷ entries else (k, w) ∷ rest

unfoldable pub lookup : {A : Type 0} → List (Text × A) → Text → Option A
lookup [] key = none
lookup ((k, v) ∷ entries) key =
    let rest = lookup entries key in if text_eq k key then some v else rest

unfoldable pub erase : Text → List Text → List Text
unfolding filterb
erase s names = filterb (λ t. not (text_eq t s)) names

unfoldable pub block_path : Text → Text
unfolding path_append
block_path s = path_append (codes "/dev/block") s

-- The path of an entry's partition in `scan`.
unfoldable pub part_path : Text → ℕ → Text
unfolding last_char is_digit
part_path p i =
    let suffix : Text = elim (last_char p) [
      | none ↦ []
      | some c ↦ if is_digit c then codes "p" else []
    ] in
    (p ++ suffix) ++ to_string (i + 1)

-- `content.has_value() && !content.empty() && content[0] == '1'`
unfoldable pub is_removable : Option Text → Bool
is_removable none = false
is_removable (some []) = false
is_removable (some (c ∷ s)) = c == b'1'

module _ {G : Gpt} where
  -- `std::sort` by name.
  unfoldable pub insert : Partition G → List (Partition G) → List (Partition G)
  insert p [] = p ∷ []
  insert p (q ∷ qs) =
      let rest = insert p qs in if text_lt (name q) (name p) then q ∷ rest else p ∷ (q ∷ qs)

  unfoldable pub sort : List (Partition G) → List (Partition G)
  unfolding insert
  sort [] = []
  sort (p ∷ ps) = insert p (sort ps)

module _ {G : Gpt} (D : Disks G) (system : System) where
  -- The used entries among those from `i` on, each with an open object.
  unfoldable pub entries_from : Text → D.Data → ℕ → ℕ → List (Partition G)
  entries_from p gpt zero i = []
  entries_from p gpt (suc rounds) i =
      let rest = entries_from p gpt rounds (i + 1) in
      let part = D.entry gpt i in
      if G.is_used part
      then from_arguments G p part (openpart_open system.devices (part_path p i) op_rdwr) i ∷ rest
      else rest

  -- The loop of `scan` over the table names: the maps and the list that it fills.
  unfoldable pub scan_names :
      List Text
      → List (Text × D.Data)
      → List (Partition G)
      → List (Text × D.Data) × List (Partition G)
  unfolding is_removable entries_from
  scan_names [] collection parts = (collection, parts)
  scan_names (n ∷ names) collection parts =
      let p = block_path n in
      elim (if is_removable (system.removable n) then none else D.load p) [
        | none ↦ scan_names names collection parts
        | some gpt ↦
            scan_names names (assign p gpt collection)
              (parts ++ entries_from p gpt (D.num_parts gpt) 0)
      ]

  unfoldable pub scan : Table G D → Outcome (Table G D)
  unfolding sort
  scan t =
      let (collection, parts) = scan_names t.local_table_names [] [] in
      if is_empty t.local_table_names
      then throw_new (codes "Empty disk path.")
      else done (record t { gpt_data = collection; local_partitions = sort parts })

  -- `insert` of an unordered set.
  unfoldable pub insert_name : Text → List Text → List Text
  insert_name s names = if contains names s then names else s ∷ names

  unfoldable pub collect_names : List (Text × Bool) → List Text → List Text
  unfolding insert_name
  collect_names [] names = names
  collect_names ((s, block) ∷ entries) names =
      collect_names entries
        (if block && system.is_really_table s then insert_name s names else names)

  unfoldable pub find_table_paths : Table G D → Outcome (Table G D)
  unfolding collect_names
  find_table_paths t = elim (system.block_entries) [
    | none ↦ throw_new (codes "filesystem error")
    | some entries ↦
        let names = collect_names entries t.local_table_names in
        let several : Bool = elim names [ [] ↦ false | n ∷ [] ↦ false | n ∷ m ∷ rest ↦ true ] in
        let ufs = if several then true else t.is_ufs in
        if is_empty names
        then throw_new (codes "Can't find any disk or partition table in \"/dev/block\"")
        else done (record t { local_table_names = names; is_ufs = ufs })
  ]

  -- The default constructor.
  unfoldable pub new_table : Outcome (Table G D)
  new_table =
      find_table_paths (record {
        gpt_data = [];
        local_partitions = [];
        local_table_names = [];
        build_auto = true;
        is_ufs = false;
      })
      >>= λ t. scan t

  unfoldable pub re_scan_if : Bool → Table G D → Outcome (Table G D)
  re_scan_if auto_toggled t = if auto_toggled && not t.build_auto then done t else scan t

  unfoldable pub remove_table : Text → Table G D → Outcome (Table G D)
  unfolding erase re_scan_if
  remove_table n t =
      if contains t.local_table_names n
      then re_scan_if true (record t { local_table_names = erase n t.local_table_names })
      else done t
