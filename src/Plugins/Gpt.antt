-- ===== src/Plugins/Gpt.antt =====
-- src/plugins/GptPlugin.cpp
pub mod Laws
use pmt_renovated.Base.{
  Bool, true, false, not, ◌&&◌, ◌||◌, Option, none, some, List, [], ◌∷◌, ◌++◌, Text, codes, text_eq,
  is_empty, ◌==◌, if◌then◌else◌, length,
}
use pmt_renovated.Helper.Error.{
  Outcome, done, threw, escaped, exited, undefined, throw_coded, ex_usage, ex_dataerr,
}
use pmt_renovated.PartitionMap.Partition.{Gpt}
use pmt_renovated.PartitionMap.Table.{Disks, Table}
use pmt_renovated.PartitionMap.Table.Query.{has_table, gpt_data_of, set_gpt_data_of, sync_one}
use pmt_renovated.Plugins.Work.{in_directory}

-- The plugin's fields, the flag, and which of the three subcommands is used (`none`: no one).
pub data Subcommand : Type 0 where
  read_table backup_table restore_table : Subcommand

pub record Arguments : Type 0 where
  pub table_names : List Text
  pub file_list : List Text
  pub directory : Text
  pub force_process : Bool
  pub used : Option Subcommand

-- What the system and the GPT library say: whether the kernel reads a table again, whether a file
-- exists at the start, whether the data is saved in a file, and the data that a file is loaded into (`none`: that
-- fails).
pub record Host (Data : Type 0) : Type 0 where
  pub re_read : Text → Bool
  pub file_exists : Text → Bool
  pub save_backup : Data → Text → Bool
  pub load_backup : Data → Text → Option Data

-- What has happened, in its order.
pub data Event : Type 0 where
  closed : Text → Event
  read_again : Text → Event
  saved : Text → Text → Event
  restored : Text → Text → Event

-- A call: how it ends, the table data, and what has happened, also when it throws.
pub record Call (G : Gpt) (D : Disks G) : Type 0 where
  pub outcome : Outcome Bool
  pub table : Table G D
  pub events : List Event

-- Whether a file is among those that were saved.
unfoldable pub is_saved : Text → List Event → Bool
is_saved output [] = false
is_saved output (saved n file ∷ events) = text_eq file output || is_saved output events
is_saved output (closed n ∷ events) = is_saved output events
is_saved output (read_again path ∷ events) = is_saved output events
is_saved output (restored n file ∷ events) = is_saved output events

abbrev read_all : Text
read_all = codes "read-all"

-- `READ_ALL_HANDLE`; the first element of an empty vector is undefined.
unfoldable pub read_all_handle : List Text → List Text → Outcome (List Text)
read_all_handle [] all = undefined
read_all_handle (n ∷ names) all = if text_eq n read_all then done all else done (n ∷ names)

-- `operator[]` of a vector behind its end is undefined.
unfoldable pub element : List Text → Outcome Text
element [] = undefined
element (f ∷ files) = done f

abbrev rest_of : List Text → List Text
rest_of [] = []
rest_of (f ∷ files) = files

mismatch : Arguments → Bool
mismatch a = not (is_empty a.file_list) && not (length a.table_names == length a.file_list)

module _ {G : Gpt} {D : Disks G} (host : Host D.Data) (a : Arguments) where
  -- `SPAWN_ERROR`
  unfoldable pub spawn_error : Table G D → List Event → Call G D
  spawn_error t events = record { outcome = done a.force_process; table = t; events = events }

  abbrev pub ends : Outcome Bool → Table G D → List Event → Call G D
  ends o t events = record { outcome = o; table = t; events = events }

  -- A step that may fail, and what follows it.
  abbrev pub then_ : {A : Type 0} → Outcome A → Table G D → List Event → (A → Call G D) → Call G D
  then_ (done x) t events f = f x
  then_ (threw e) t events f = ends (threw e) t events
  then_ escaped t events f = ends escaped t events
  then_ (exited n) t events f = ends (exited n) t events
  then_ undefined t events f = ends undefined t events

  -- The loop of `reReadTables`; the descriptors of a table's partitions are closed first.
  unfoldable pub re_read_tables : List Text → Table G D → List Event → Call G D
  unfolding spawn_error
  re_read_tables [] t events = ends (done true) t events
  re_read_tables (n ∷ names) t events =
      let path = codes "/dev/block/" ++ n in
      let skipped = re_read_tables names t events in
      let went_on = re_read_tables names t (events ++ (closed n ∷ read_again path ∷ [])) in
      if not (has_table n t)
      then skipped
      else if host.re_read path
      then went_on
      else spawn_error t (events ++ (closed n ∷ []))

  -- The body of the loop of `backupGptTable` for a table that exists; `next` are the later rounds.
  unfoldable pub backup_one :
      Bool → Text → List Text → Table G D → List Event → (List Event → Call G D) → Call G D
  unfolding spawn_error element in_directory is_saved
  backup_one given n files t events next =
      then_ (if given then element files else done (n ++ codes ".gpt")) t events λ file.
        let output = in_directory a.directory file in
        if (host.file_exists output || is_saved output events) && not a.force_process
        then ends (throw_coded (codes "Output file already exists!") ex_dataerr) t events
        else then_ (gpt_data_of n t) t events λ data_of.
          if host.save_backup data_of output
          then next (events ++ (saved n output ∷ []))
          else spawn_error t events

  -- The loop of `backupGptTable`: whether outputs were given, and the names and outputs that are left.
  unfoldable pub backup_loop : Bool → List Text → List Text → Table G D → List Event → Call G D
  unfolding backup_one
  backup_loop given [] files t events = ends (done true) t events
  backup_loop given (n ∷ names) files t events =
      let skipped = backup_loop given names (rest_of files) t events in
      let going = backup_one given n files t events (backup_loop given names (rest_of files) t) in
      if has_table n t then going else skipped

  -- `backupGptTable`
  unfoldable pub backup_gpt_table : Table G D → Call G D
  unfolding mismatch read_all_handle backup_loop
  backup_gpt_table t =
      if mismatch a
      then ends
          (throw_coded (codes "You must provide an output name(s) as long as the table name(s)")
            ex_usage)
          t []
      else then_ (read_all_handle a.table_names t.local_table_names) t []
          λ names. backup_loop (not (is_empty a.file_list)) names a.file_list t []

  -- The loop of `restoreGptTable`.
  unfoldable pub restore_loop : List Text → List Text → Table G D → List Event → Call G D
  unfolding spawn_error element in_directory
  restore_loop [] files t events = ends (done true) t events
  restore_loop (n ∷ names) files t events =
      let skipped = restore_loop names (rest_of files) t events in
      let went_on = λ (input : Text) (u : Table G D).
        restore_loop names (rest_of files) u (events ++ (restored n input ∷ [])) in
      if not (has_table n t)
      then skipped
      else then_ (element files) t events λ file.
        let input = in_directory a.directory file in
        then_ (gpt_data_of n t) t events λ data_of. elim (host.load_backup data_of input) [
          | none ↦ spawn_error t events
          | some loaded ↦
              let u = set_gpt_data_of n loaded t in
              then_ (sync_one n u) u events
                λ synced. if not synced then spawn_error u events else went_on input u
        ]

  -- `restoreGptTable`
  unfoldable pub restore_gpt_table : Table G D → Call G D
  unfolding mismatch restore_loop
  restore_gpt_table t =
      if mismatch a
      then ends
          (throw_coded (codes "You must provide an file name(s) as long as the table name(s)")
            ex_usage)
          t []
      else restore_loop a.table_names a.file_list t []

  -- The loop of `run` over the names: whether it gets to its end.
  unfoldable pub all_known : List Text → Table G D → Bool
  all_known [] t = true
  all_known (n ∷ names) t =
      let rest = all_known names t in
      if text_eq n read_all then true else if has_table n t then rest else false

  -- The end of `run`, by the subcommand that is used.
  unfoldable pub run_used : Option Subcommand → Table G D → Call G D
  unfolding re_read_tables backup_gpt_table restore_gpt_table read_all_handle
  run_used none t = ends (done false) t []
  run_used (some read_table) t =
      then_ (read_all_handle a.table_names t.local_table_names) t []
        (λ names. re_read_tables names t [])
  run_used (some backup_table) t = backup_gpt_table t
  run_used (some restore_table) t = restore_gpt_table t

  -- `run`
  unfoldable pub run : Table G D → Call G D
  unfolding all_known run_used spawn_error
  run t = if all_known a.table_names t then run_used a.used t else spawn_error t []
