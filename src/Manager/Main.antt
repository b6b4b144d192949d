-- ===== src/Manager/Main.antt =====
-- src/Main.cpp: what `main` decides after the arguments are parsed, and its exit code.
pub mod Laws
pub mod Success
use pmt_renovated.Base.{
  ℕ, Bool, true, false, not, ◌&&◌, ◌||◌, List, Text, is_empty, ltb, ◌==◌, if◌then◌else◌, codes,
}
use pmt_renovated.Helper.Error.{Outcome, done, threw, escaped, exited, undefined, ◌>>=◌, throw_new}
use pmt_renovated.PartitionMap.Partition.{Gpt}
use pmt_renovated.PartitionMap.Table.{Disks, Table}
use pmt_renovated.PartitionMap.Table.Query.{valid, is_has_super_partition}
use pmt_renovated.Manager.Plugins.{Manager, get_used, run_used}

-- The state behind `parse`: the arguments, with those of the standard input, the options and flags, the
-- privileges of the process, the tables, the manager, and what the plugins act on.
pub record Situation (G : Gpt) (D : Disks G) (W : Type 0) : Type 0 where
  pub argc : ℕ
  pub plugins : List Text
  pub plugin_path : Text
  pub view_license : Bool
  pub view_version : Bool
  pub force_process : Bool
  pub on_logical : Bool
  pub has_root_privileges : Bool
  pub tables : Table G D
  pub manager : Manager W
  pub process : W

-- `tableNamesEmpty`
unfoldable pub table_names_empty : {G : Gpt} {D : Disks G} → Table G D → Bool
table_names_empty t = is_empty t.local_table_names

-- `!manager.runUsed()` as an exit code.
unfoldable pub exit_code : {W : Type 0} → Outcome (Bool × W) → Outcome ℕ
exit_code run = run >>= λ (ok, w). done (if ok then 0 else 1)

module _ {G : Gpt} {D : Disks G} {W : Type 0} where
  -- `argc < 2 || (argc == 3 && (!plugins.empty() || !pluginPath.empty()))`
  unfoldable pub argc_too_small : Situation G D W → Bool
  argc_too_small s =
      ltb s.argc 2 || (s.argc == 3 && (not (is_empty s.plugins) || not (is_empty s.plugin_path)))

  -- The checks behind that for the privileges.
  unfoldable pub checked_body : Situation G D W → Outcome ℕ
  unfolding table_names_empty valid is_has_super_partition get_used run_used exit_code
  checked_body s =
      if table_names_empty s.tables
      then throw_new (codes "Cannot find any partition table on this device.")
      else if not (valid s.tables) && not s.force_process
      then throw_new (
          codes
            "Problem(s) have been detected in your device's partition table. Please use -f (--force) to continue.")
      else if s.on_logical && not (is_has_super_partition s.tables)
      then throw_new (
          codes
            "This device doesn't contains logical partitions. But you used -l (--logical) flag.")
      else if is_empty (get_used s.manager s.process)
      then throw_new (codes "Unknown main command speficied! Use --help for more information.")
      else exit_code (run_used s.manager s.process)

  -- The body of the `try` block behind `parse`.
  unfoldable pub main_body : Situation G D W → Outcome ℕ
  unfolding argc_too_small checked_body
  main_body s =
      if argc_too_small s
      then done 1
      else if s.view_license
      then done 0
      else if s.view_version
      then done 0
      else if not s.has_root_privileges
      then throw_new (codes "This program requires super-user privileges.")
      else checked_body s

-- The handler: both of its branches return the error's code.
unfoldable pub main_result : Outcome ℕ → Outcome ℕ
main_result (threw e) = done e.ec
main_result (done n) = done n
main_result escaped = escaped
main_result (exited n) = exited n
main_result undefined = undefined
