-- ===== src/Tests/Detect.antt =====
-- An image file and a logical partition whose types are detected (src/plugins/TypePlugin.cpp).
use pmt_renovated.Base.{
  ℕ, ◌≤◌, ◌≡◌, ◌↔◌, refl, sym, ◌∙◌, ap, subst, inl, inr, true, false, some, List, [], ◌∷◌, arith,
  codes, Text, text_eq, ltb, if◌then◌else◌, length, Bool-cases, if_true, if_false,
}
use pmt_renovated.Helper.Error.{done}
use pmt_renovated.PartitionMap.Partition.{absolute_path, name}
use pmt_renovated.PartitionMap.Table.Query
use pmt_renovated.PartitionMap.Table.Query.{named}
use pmt_renovated.PartitionMap.Dynamic
use pmt_renovated.PartitionMap.Magic.{has_magic, get_magic_length, scan, spelled}
use pmt_renovated.PartitionMap.Select.{get_correct_table_obj, setup_partition}
use pmt_renovated.Plugins.Work.{find}
use pmt_renovated.Plugins.Work.Laws.{some_injective}
use pmt_renovated.Plugins.Detect.{
  MagicMaps, Options, Reads, android_magics, file_system_magics, all_magics, run,
}
use pmt_renovated.Plugins.Detect.Laws.{AllIdentified}
use pmt_renovated.Plugins.Detect.Run.{IsSorted, run_identifies}
use pmt_renovated.Plugins.Detect.Holds.{IsBounded, AllHold, run-AllHold}
use pmt_renovated.Tests.Plugins.{flags}

-- An ELF file, and what looks like a file system.
abbrev bytes_of : Text → List ℕ
bytes_of path =
    if text_eq path (codes "a.elf")
    then 127 ∷ 69 ∷ 76 ∷ 70 ∷ 2 ∷ 1 ∷ 1 ∷ 0 ∷ []
    else 0 ∷ 0 ∷ 83 ∷ 239 ∷ 1 ∷ 0 ∷ 0 ∷ 0 ∷ []

abbrev test_reads : Reads
test_reads = record {
  exists = λ path. text_eq path (codes "a.elf");
  opens = λ path. true;
  first_bytes = λ path n. if ltb n 8 then some [] else some (bytes_of path);
}

bytes_of-length : (path : Text) → length (bytes_of path) ≡ 8
bytes_of-length path = elim (Bool-cases (text_eq path (codes "a.elf"))) [
  | inl elf ↦ ap length (if_true _ _ elf)
  | inr other ↦ ap length (if_false _ _ other)
]

test_reads-IsBounded : IsBounded test_reads
test_reads-IsBounded path n bytes e = elim (Bool-cases (ltb n 8)) [
  | inl small ↦
      let nothing : [] ≡ bytes = some_injective (sym (if_true _ _ small) ∙ e) in
      subst (λ b. length b ≤ n) nothing (omega arith)
  | inr room ↦
      let whole : bytes_of path ≡ bytes = some_injective (sym (if_false _ _ room) ∙ e) in
      subst (λ b. length b ≤ n) whole (ground (arith, bytes_of-length path))
]

abbrev test_options : Options
test_options = record {
  contents = codes "a.elf" ∷ codes "system" ∷ [];
  only_check_android_magics = false;
  only_check_file_system_magics = false;
  buffer_size = 4096;
}

abbrev test_maps : MagicMaps
test_maps = record { android = android_magics; file_system = file_system_magics; all = all_magics }

abbrev test_found : List (ℕ × Text)
test_found = (0x464C457F, codes "ELF") ∷ (0xEF53, codes "EXT2/3/4") ∷ []

-- The map of all magic numbers is empty behind the run.
runs :
    run flags test_reads test_options test_maps
    ≡ some (done (test_found, record test_maps { all = [] }))
unfolding run all_magics has_magic absolute_path text_eq find setup_partition get_correct_table_obj
    Dynamic.has_partition named name Query.has_partition get_magic_length scan spelled
    Dynamic.partition
runs = refl

test_maps-IsSorted : IsSorted test_maps
unfolding android_magics file_system_magics all_magics
test_maps-IsSorted = (refl, refl, refl)

run_identifies_example :
    (run flags test_reads test_options test_maps
      ≡ some (done (test_found, record test_maps { all = [] })))
    ↔ (AllIdentified flags test_reads 4096 all_magics test_options.contents test_found
        × (record test_maps { all = [] } ≡ record test_maps { all = [] }))
run_identifies_example =
    run_identifies flags test_reads test_options test_maps (record test_maps { all = [] })
      test_found test_maps-IsSorted

run-AllHold_example : AllHold flags test_reads 4096 test_options.contents test_found
run-AllHold_example =
    run-AllHold flags test_reads test_options test_maps (record test_maps { all = [] }) test_found
      test_maps-IsSorted test_reads-IsBounded (omega arith) runs
