-- ===== src/Tests/Manager.antt =====
-- Two plugins, and the arguments of a run (Plugin.hpp).
use pmt_renovated.Base.{
  ℕ, ◌%◌, ◌≡◌, ◌≢◌, ◌↔◌, ◌⊎◌, refl, true, false, none, some, List, [], ◌∷◌, Text, codes, any,
  text_eq, ◌⊎◌, if◌then◌else◌,
}
use pmt_renovated.Helper.Error.{done, threw, new_error}
use pmt_renovated.PartitionMap.Partition.{Partition, size, filename, name}
use pmt_renovated.PartitionMap.Select.{classic, has_partition}
use pmt_renovated.PartitionMap.Table.Query
use pmt_renovated.PartitionMap.Table.Query.{named}
use pmt_renovated.Manager.Inputs.{setup_buffer_size, lookup_partition}
use pmt_renovated.Manager.Inputs.Laws.{setup_buffer_size_divides}
use pmt_renovated.Manager.Plugins.{Plugin, Manager, Library, creates, load_plugin, already_exists}
use pmt_renovated.Manager.Plugins.Laws.{IsWellFormed, load_plugin-IsWellFormed}
use pmt_renovated.Helper.Async.{Result, run_all, run_all_lem, all_succeed, failures}
use pmt_renovated.Manager.Main.{Situation, main_body}
use pmt_renovated.Manager.Main.Laws.{Enough}
use pmt_renovated.Manager.Main.Success.{Works, main_body_iff}
use pmt_renovated.Tests.Partition.{toy_gpt}
use pmt_renovated.Tests.Table.{scanned, toy_disks}

abbrev comma : ℕ
comma = 44

abbrev one : ℕ
one = 1

setup_buffer_size_divides_example :
    (p : Partition toy_gpt) × (lookup_partition (filename (codes "boot")) (classic scanned)
      ≡ done (some p))
    × (total : ℕ) × (size p ≡ done total)
    × (one ≢ 0)
    × (total % one ≡ 0)
unfolding setup_buffer_size has_partition Query.has_partition text_eq name Query.partition
    Query.matches size
setup_buffer_size_divides_example =
    setup_buffer_size_divides (λ t. none) 2 (codes "boot") (classic scanned) 1 refl refl

abbrev toy_plugin : Plugin (List Text)
toy_plugin = record {
  get_name = codes "FlashPlugin";
  on_load = λ w. done (true, codes "flash" ∷ w);
  on_unload = λ w. done (true, w);
  used = λ w. false;
  run = λ w. done (true, w);
}

abbrev erase_plugin : Plugin (List Text)
erase_plugin = record toy_plugin { get_name = codes "ErasePlugin" }

abbrev reboot_plugin : Plugin (List Text)
reboot_plugin = record toy_plugin { get_name = codes "RebootPlugin"; used = λ w. true }

abbrev one_plugin : Manager (List Text)
one_plugin = record {
  builtin_plugins = reboot_plugin ∷ [];
  plugins = record { name = codes "ErasePlugin"; instance_of = erase_plugin } ∷ [];
}

abbrev two_plugins : Manager (List Text)
two_plugins = record {
  builtin_plugins = reboot_plugin ∷ [];
  plugins =
      record { name = codes "ErasePlugin"; instance_of = erase_plugin }
      ∷ record { name = codes "FlashPlugin"; instance_of = toy_plugin }
      ∷ [];
}

abbrev libraries : Text → Library (List Text)
libraries path = creates toy_plugin

one_plugin-IsWellFormed : IsWellFormed one_plugin
unfolding any text_eq
one_plugin-IsWellFormed = ((refl, tt), (refl, tt), (refl, tt), (refl, tt))

load_plugin-IsWellFormed_example : IsWellFormed two_plugins
unfolding load_plugin already_exists any text_eq
load_plugin-IsWellFormed_example =
    load_plugin-IsWellFormed libraries (codes "libflash.so") one_plugin two_plugins []
      (codes "flash" ∷ []) true one_plugin-IsWellFormed refl

abbrev two_results : List Result
two_results =
    record { message = codes "boot done"; result = true }
    ∷ record { message = codes "dtbo failed"; result = false }
    ∷ []

run_all_lem_example :
    run_all two_results
    ≡ (if all_succeed two_results then done true else threw (new_error (failures two_results)))
run_all_lem_example = run_all_lem two_results

abbrev usual : Situation toy_gpt toy_disks (List Text)
usual = record {
  argc = 4;
  plugins = codes "libflash.so" ∷ [];
  plugin_path = [];
  view_license = false;
  view_version = false;
  force_process = true;
  on_logical = false;
  has_root_privileges = true;
  tables = scanned;
  manager = one_plugin;
  process = [];
}

main_body_iff_example :
    (main_body usual ≡ done 0) ↔ (Enough usual × ((false ≡ true) ⊎ ((false ≡ true) ⊎ Works usual)))
main_body_iff_example = main_body_iff usual

ends_with_0 : main_body usual ≡ done 0
unfolding main_body text_eq
ends_with_0 = refl
