-- ===== src/Tests/Partition.antt =====
-- A device of a few bytes, and transfers from and to it; magic numbers in short files (partition.hpp,
-- Magic.cpp).
use pmt_renovated.Base.{
  ℕ, ◌-◌, ◌≡◌, ◌≢◌, ◌↔◌, refl, ap, Bool, true, false, none, some, List, [], ◌∷◌, arith, Text, codes,
  ◌==◌, length,
}
use pmt_renovated.Helper.Error.{done}
use pmt_renovated.Helper.CmdLine.Number.{is_digit, to_string, digits_from}
use pmt_renovated.PartitionMap.OpenPart.{Handle, Devices, openpart_open, may_write}
use pmt_renovated.PartitionMap.Partition.{
  Gpt, Files, Partition, path, last_char, copy_assign, opened, reopen_path,
}
use pmt_renovated.PartitionMap.Partition.Laws.{copy_assign-write, dump_never_ends}
use pmt_renovated.PartitionMap.Partition.Transfer.{got, Kernel, to_open, dump, write, zero_bytes}
use pmt_renovated.PartitionMap.Partition.Transfer.Dump.{Serves, dump_copies}
use pmt_renovated.PartitionMap.Partition.Transfer.Write.{Accepts, write_fills}
use pmt_renovated.PartitionMap.Magic.{byte_at, length_from, get_magic_length, has_magic}
use pmt_renovated.PartitionMap.Magic.Laws.{Occurs, has_magic-Occurs}

abbrev pub toy_gpt : Gpt
toy_gpt = record {
  Part = Text × Bool;
  Guid = ℕ;
  blank = ([], false);
  description = λ p. p.0;
  first_lba = λ p. 0;
  last_lba = λ p. 7;
  unique_guid = λ p. length p.0;
  guid_eq = λ a b. a == b;
  guid_from = λ t. length t;
  guid_text = λ g. [];
  is_used = λ p. p.1;
}

abbrev pub toy_handle : Handle
toy_handle = record { device = codes "/dev/block/sda1"; flags = 4; size = 5; sector_size = 512 }

abbrev pub boot : Partition toy_gpt
boot = record {
  local_table_path = codes "/dev/block/sda";
  logical_partition_path = [];
  local_index = 0;
  gpt_part = (codes "boot", true);
  op = some toy_handle;
  is_logical = false;
}

abbrev no_files : Files
no_files = record { read_symlink = λ t. none; exists = λ t. false }

abbrev pub honest : Kernel
honest = record {
  read_at = λ round count offset. got count;
  write_at = λ round count offset. got count;
  read_file = λ round count. got count;
  write_file = λ round count. got count;
  is_eperm = λ round. false;
  refuses_size_max = true;
  can_create = true;
  can_open = true;
  file_size = some 3;
}

abbrev content : List ℕ
content = 1 ∷ 2 ∷ 3 ∷ 4 ∷ 5 ∷ []

honest-Serves : Serves honest 5
honest-Serves = record {
  reads = λ round count offset room inside. (count - 1, ap got (omega arith), omega arith);
  writes = λ round count. refl;
}

honest-Accepts : Accepts honest 5
honest-Accepts = record {
  reads = λ round count room. (count - 1, ap got (omega arith), omega arith);
  writes = λ round count offset inside. refl;
}

abbrev boot_path : Text
boot_path = codes "/dev/block/sda1"

dump_copies_example : dump no_files honest content 2 6 boot ≡ some (done (true, content))
unfolding to_open path last_char is_digit to_string digits_from
dump_copies_example =
    dump_copies no_files honest content 2 6 boot toy_handle boot_path refl refl refl (omega arith)
      refl (omega arith) (omega arith) honest-Serves (omega arith)

abbrev image : List ℕ
image = 9 ∷ 8 ∷ 7 ∷ []

write_fills_example :
    write no_files honest image content 2 6 boot ≡ some (done (false, 9 ∷ 8 ∷ 7 ∷ 0 ∷ 0 ∷ []))
unfolding to_open path last_char is_digit to_string digits_from may_write zero_bytes
write_fills_example =
    write_fills no_files honest image content 2 6 boot toy_handle boot_path refl refl refl refl
      (omega arith) refl refl (omega arith) (omega arith) (omega arith) honest-Accepts (omega arith)

abbrev pub toy_devices : Devices
toy_devices t = some (5, 512)

abbrev assigned : Partition toy_gpt
assigned = record boot { op = some (record toy_handle { flags = 2 }) }

copy_assign-write_example :
    write no_files honest image content 2 6 assigned ≢ some (done (true, content))
unfolding copy_assign opened openpart_open reopen_path
copy_assign-write_example =
    copy_assign-write toy_devices boot boot assigned no_files honest image content 2 6
      (true, content) refl refl (omega arith)

abbrev exhausted : Kernel
exhausted = record honest { read_at = λ round count offset. got 0 }

dump_never_ends_example : dump no_files exhausted content 2 100 boot ≡ none
unfolding to_open path last_char is_digit to_string digits_from
dump_never_ends_example =
    dump_never_ends no_files exhausted content 2 100 boot toy_handle boot_path refl refl
      (omega arith) (omega arith) refl (λ round count offset. refl) (λ round. refl) (λ round. refl)

has_magic-Occurs_example :
    (answer : Bool) × (has_magic 0xEF53 8 true (some (1 ∷ 0x53 ∷ 0xEF ∷ [])) ≡ done answer)
    × ((answer ≡ true) ↔ Occurs 0xEF53 (get_magic_length 0xEF53) (1 ∷ 0x53 ∷ 0xEF ∷ []))
unfolding get_magic_length length_from byte_at
has_magic-Occurs_example =
    has_magic-Occurs 0xEF53 8 (1 ∷ 0x53 ∷ 0xEF ∷ []) (omega arith) (omega arith) (omega arith)
      (omega arith)
