-- ===== src/Tests/Table.antt =====
-- A system with two devices, its scanned table, and a super partition (PartitionTableData.cpp,
-- DynamicPartitionTable.cpp, builder.hpp).
use mathlib.Core.List.{Memᴰ}
use pmt_renovated.Base.{
  ℕ, ◌+◌, ◌%◌, ◌^◌, ◌≤◌, ◌≡◌, ◌≢◌, ◌↔◌, ◌⊎◌, inl, refl, Bool, true, false, ◌||◌, none, some, List,
  [], ◌∷◌, Text, codes, length, All, text_eq, is_empty, contains,
}
use pmt_renovated.Helper.Error.{done}
use pmt_renovated.Helper.CmdLine.Number.{to_string}
use pmt_renovated.PartitionMap.OpenPart.{openpart_open}
use pmt_renovated.PartitionMap.Partition.{
  Files, Partition, name, size, table_name, path_by_name, from_arguments,
}
use pmt_renovated.PartitionMap.Table.{
  Disks, System, Table, scan, scan_names, block_path, part_path, text_lt, assign, remove_table,
  re_scan_if, erase,
}
use pmt_renovated.PartitionMap.Table.Scan.{Registered, scan_finds}
use pmt_renovated.PartitionMap.Table.Removal.{remove_table_forgets}
use pmt_renovated.PartitionMap.Table.Query.{
  named, partition, has_partition, duplicate_partition_positions, partition_with_dup_check,
}
use pmt_renovated.PartitionMap.Table.Query.Laws.{table_of, partition_iff}
use pmt_renovated.PartitionMap.Table.Query.Choice.{Waits, partition_with_dup_check_finds}
use pmt_renovated.PartitionMap.Dynamic.{LpMetadata, Dynamic, sync, valid_metadata}
use pmt_renovated.PartitionMap.Dynamic.Laws.{Fits, valid_metadata_sound, sync_inverted}
use pmt_renovated.PartitionMap.Select
use pmt_renovated.PartitionMap.Select.{classic, dynamic, setup_partition, get_correct_table_obj}
use pmt_renovated.PartitionMap.Select.Laws.{setup_partition_finds}
use pmt_renovated.Tests.Partition.{toy_gpt, toy_handle, boot, toy_devices}

-- Both devices hold a partition `boot`.
abbrev pub toy_disks : Disks toy_gpt
toy_disks = record {
  Data = ℕ;
  load = λ p. some 1;
  block_size = λ d. 512;
  num_parts = λ d. d;
  entry = λ d i. (codes "boot", true);
  free_sectors = λ d. 0;
  save_gpt = λ d. true;
  save_mbr = λ d. true;
  verify = λ d. 0;
  check_header = λ d. 3;
  disk_guid = λ d. 0;
}

abbrev pub links : Files
links = record { read_symlink = λ t. some (codes "/dev/block/sda1"); exists = λ t. true }

abbrev toy_system : System
toy_system = record {
  removable = λ n. none;
  block_entries = none;
  is_really_table = λ n. true;
  devices = toy_devices;
  files = links;
}

abbrev on_sdb : Partition toy_gpt
on_sdb = record boot {
  local_table_path = codes "/dev/block/sdb";
  op = some (record { device = codes "/dev/block/sdb1"; flags = 4; size = 5; sector_size = 512 });
}

abbrev unscanned : Table toy_gpt toy_disks
unscanned = record {
  gpt_data = [];
  local_partitions = [];
  local_table_names = codes "sda" ∷ codes "sdb" ∷ [];
  build_auto = true;
  is_ufs = true;
}

abbrev pub scanned : Table toy_gpt toy_disks
scanned = record unscanned {
  gpt_data = (codes "/dev/block/sda", 1) ∷ (codes "/dev/block/sdb", 1) ∷ [];
  local_partitions = boot ∷ on_sdb ∷ [];
}

scan_finds_example :
    Memᴰ on_sdb scanned.local_partitions
    ↔ Registered toy_disks toy_system unscanned.local_table_names on_sdb
unfolding scan scan_names assign text_lt text_eq name block_path from_arguments openpart_open
    part_path to_string
scan_finds_example = scan_finds toy_disks toy_system unscanned scanned refl on_sdb

abbrev found_positions : List (Bool × Text)
found_positions = (true, codes "sda") ∷ (false, codes "sdb") ∷ []

partition_with_dup_check_finds_example :
    let waits = Waits (codes "sdb" ∷ []) (codes "boot") true scanned found_positions in
    (waits × (partition_with_dup_check links (codes "sdb" ∷ []) (codes "boot") true scanned ≡ none))
    ⊎ ((¬ waits)
        × (p : Partition toy_gpt) × (partition_with_dup_check links
              (codes "sdb" ∷ [])
              (codes "boot")
              true
              scanned
            ≡ some (done (some p)))
        × (name p ≡ codes "boot"))
unfolding duplicate_partition_positions text_eq name path_by_name table_name to_string has_partition
partition_with_dup_check_finds_example =
    partition_with_dup_check_finds links (codes "sdb" ∷ []) (codes "boot") true scanned
      found_positions (refl, (refl, tt)) refl refl

partition_iff_example :
    ((p : Partition toy_gpt) × (partition (codes "boot") (codes "sdb") scanned ≡ done (some p))) ↔ (
      (p : Partition toy_gpt) × Memᴰ p scanned.local_partitions
      × (name p ≡ codes "boot")
      × ((is_empty (codes "sdb") || text_eq (table_of p) (codes "sdb")) ≡ true))
partition_iff_example = partition_iff (codes "boot") (codes "sdb") scanned (refl, (refl, tt))

abbrev without_sda : Table toy_gpt toy_disks
without_sda = record unscanned {
  gpt_data = (codes "/dev/block/sdb", 1) ∷ [];
  local_partitions = on_sdb ∷ [];
  local_table_names = codes "sdb" ∷ [];
}

remove_table_forgets_example :
    (k : Text) × Memᴰ k scanned.local_table_names
    × (k ≢ codes "sda")
    × (on_sdb.local_table_path ≡ block_path k)
    × (on_sdb.is_logical ≡ false)
unfolding remove_table erase re_scan_if scan scan_names assign text_lt text_eq name block_path
    from_arguments openpart_open part_path to_string contains
remove_table_forgets_example =
    remove_table_forgets toy_disks toy_system scanned without_sda (codes "sda") on_sdb refl refl
      refl (Memᴰ.head refl)

abbrev pub super_metadata : LpMetadata
super_metadata = record {
  magic = 7;
  partitions =
      record { name = codes "system"; group_index = 0; first_extent_index = 0; num_extents = 1 }
      ∷ [];
  groups = record { name = codes "main"; maximum_size = 4096 } ∷ [];
  extents = record { is_linear = true; target_source = 0; target_data = 2; num_sectors = 4 } ∷ [];
  block_devices = 8192 ∷ [];
}

abbrev pub system_part : Partition toy_gpt
system_part = record boot {
  local_table_path = [];
  logical_partition_path = codes "/dev/block/mapper/system";
  is_logical = true;
}

abbrev pub super_table : Dynamic toy_gpt
super_table = record {
  local_partitions = system_part ∷ [];
  lp_metadata = some super_metadata;
  supported = true;
}

valid_metadata_sound_example :
    (m : LpMetadata) × (super_table.lp_metadata ≡ some m)
    × (m.magic ≡ 7)
    × All (Fits m.block_devices) m.extents
    × All (λ p. (p.first_extent_index + p.num_extents) % 2 ^ 32 ≤ length m.extents) m.partitions
unfolding valid_metadata named text_eq name size
valid_metadata_sound_example = valid_metadata_sound 7 super_table refl

sync_inverted_example : sync (λ h. true) super_table ≡ false
sync_inverted_example =
    sync_inverted (λ h. true) super_table system_part [] refl (λ h. refl) ((toy_handle, refl), tt)

setup_partition_finds_example :
    let chosen =
      (get_correct_table_obj
        (codes "boot")
        (some (classic scanned))
        (some (dynamic super_table))
        none).0 in
    let waits =
      (Select.has_partition {D = toy_disks} (codes "boot") (dynamic super_table) ≡ false)
      × Waits (codes "sda" ∷ []) (codes "boot") true scanned found_positions in
    (waits × (setup_partition links (codes "sda" ∷ []) (codes "boot") chosen ≡ none))
    ⊎ ((¬ waits)
        × (p : Partition toy_gpt) × (setup_partition links (codes "sda" ∷ []) (codes "boot") chosen
            ≡ some (done (some p)))
        × (name p ≡ codes "boot"))
unfolding Select.has_partition duplicate_partition_positions text_eq name path_by_name table_name
    to_string has_partition
setup_partition_finds_example =
    setup_partition_finds links (codes "sda" ∷ []) (codes "boot") scanned super_table
      found_positions (refl, (refl, tt)) refl (inl refl)
