-- ===== src/Tests/Gpt.antt =====
-- A prompt that is answered, tables that are saved, and partitions that are shown (Utilities.cpp,
-- src/plugins/GptPlugin.cpp, PartitionSizePlugin.cpp).
use pmt_renovated.Base.{
  ℕ, ◌+◌, ◌≤◌, ◌≡◌, ◌⊎◌, refl, true, false, some, List, [], ◌∷◌, ◌++◌, Text, codes, length, All,
  text_eq, contains,
}
use pmt_renovated.Helper.Error.{done}
use pmt_renovated.Helper.Prompt.{Reply, confirm_prompt, confirm_prompt-yes, means_yes, IsUnexpected}
use pmt_renovated.PartitionMap.Partition.{name}
use pmt_renovated.PartitionMap.Table.{block_path}
use pmt_renovated.PartitionMap.Table.Query
use pmt_renovated.PartitionMap.Table.Query.{named}
use pmt_renovated.PartitionMap.Dynamic
use pmt_renovated.PartitionMap.Dynamic.{Dynamic}
use pmt_renovated.Plugins.Gpt
use pmt_renovated.Plugins.Gpt.Laws.{Backs, backup_gpt_table_saves, run_unknown}
use pmt_renovated.Plugins.Listing.{shown, back, all_exist, for_each_for, for_each_for_dynamic}
use pmt_renovated.Plugins.Listing.Laws.{IsAsked, Has, shown_names}
use pmt_renovated.Tests.Partition.{boot}
use pmt_renovated.Tests.Table.{toy_disks, scanned, system_part, super_table}

agreed : Reply
agreed = record { answer = true; total_tries = 1; rest = b'n' ∷ [] }

confirm_prompt-yes_example :
    (junk : List ℕ) × (p : ℕ) × (b'?' ∷ b'y' ∷ b'n' ∷ [] ≡ junk ++ (p ∷ agreed.rest))
    × (means_yes p ≡ true)
    × All IsUnexpected junk
    × ((junk ≡ []) ⊎ (1 + length junk ≤ 10))
unfolding confirm_prompt agreed
confirm_prompt-yes_example =
    confirm_prompt-yes 10 1 (b'?' ∷ b'y' ∷ b'n' ∷ []) {r = agreed} refl refl

abbrev host : Gpt.Host ℕ
host = record {
  re_read = λ p. true;
  file_exists = λ p. false;
  save_backup = λ d p. true;
  load_backup = λ d p. some 2;
}

abbrev arguments : Gpt.Arguments
arguments = record {
  table_names = codes "read-all" ∷ [];
  file_list = [];
  directory = codes "/sdcard";
  force_process = false;
  used = some Gpt.backup_table;
}

backup_gpt_table_saves_example :
    (names : List Text) × (Gpt.read_all_handle arguments.table_names scanned.local_table_names
      ≡ done names)
    × Backs host arguments scanned false names [] []
        (Gpt.backup_gpt_table {D = toy_disks} host arguments scanned).events
unfolding Gpt.backup_gpt_table Gpt.backup_loop Gpt.backup_one Gpt.is_saved Gpt.read_all_handle
    Query.has_table Query.gpt_data_of text_eq contains block_path
backup_gpt_table_saves_example = backup_gpt_table_saves host arguments scanned refl refl

abbrev unknown : Gpt.Arguments
unknown = record arguments { table_names = codes "sda" ∷ codes "sdz" ∷ []; force_process = true }

run_unknown_example :
    Gpt.run {D = toy_disks} host unknown scanned
    ≡ record { outcome = done true; table = scanned; events = [] }
unfolding Query.has_table contains text_eq
run_unknown_example =
    run_unknown host unknown scanned (codes "sda" ∷ []) (codes "sdz") [] refl ((refl, refl), tt)
      refl refl

abbrev restoring : Gpt.Arguments
restoring = record arguments { file_list = codes "all.gpt" ∷ []; used = some Gpt.restore_table }

shown_names_example :
    All
      (IsAsked
        (codes "boot" ∷ codes "system" ∷ [])
        (scanned.local_partitions ++ super_table.local_partitions))
      (boot ∷ system_part ∷ [])
    × All (Has (boot ∷ system_part ∷ [])) (codes "boot" ∷ codes "system" ∷ [])
unfolding shown back all_exist for_each_for for_each_for_dynamic Query.partition Query.has_partition
    Dynamic.partition Dynamic.has_partition text_eq name named Query.matches
shown_names_example =
    shown_names scanned super_table (codes "boot" ∷ codes "system" ∷ []) (codes "system")
      (boot ∷ system_part ∷ []) (refl, (refl, tt)) refl refl refl
