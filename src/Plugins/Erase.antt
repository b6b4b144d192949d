-- ===== src/Plugins/Erase.antt =====
-- src/plugins/ErasePlugin.cpp
pub mod Laws
pub mod Safety
use pmt_renovated.Base.{
  ℕ, zero, suc, ◌+◌, ◌-◌, min, Bool, true, false, not, Option, none, some, List, [], ◌∷◌, Text,
  codes, ltb, ◌==◌, if◌then◌else◌, take, map, Step, again, finish, iterate,
}
use pmt_renovated.Helper.Error.{Outcome, done, undefined, ◌>>=◌, throw_new}
use pmt_renovated.Helper.Async.{Result}
use pmt_renovated.Helper.Prompt.{confirm_prompt, Reply}
use pmt_renovated.PartitionMap.Partition.{Gpt, Partition, size, absolute_path}
use pmt_renovated.PartitionMap.Partition.Transfer.{
  Kernel, Answer, got, failed, before, after, overwrite, zero_bytes,
}
use pmt_renovated.PartitionMap.Table.{Disks}
use pmt_renovated.PartitionMap.Select.{BaseTable, TableType, get_correct_table_obj}
use pmt_renovated.Manager.Inputs.{setup_buffer_size}
use pmt_renovated.Plugins.Work.{
  Flags, failure, success, buffer_for, find, refused, gives, result_of, end_with,
}

-- The plugin's field; the sizes of the files of the system; the answers of the kernel and of the user
-- while a partition is erased, with the number of tries that the user has had; the content of each
-- partition; and the fuel of the loop.
pub record Task : Type 0 where
  pub buffer_size : ℕ
  pub file_size : Text → Option ℕ
  pub kernel : Text → Kernel
  pub typed : Text → List ℕ
  pub total_tries : ℕ
  pub content_of : Text → List ℕ
  pub fuel : ℕ

-- The loop: the round, `bytesWritten`, and what is on the partition.
pub record Erasing : Type 0 where
  pub round : ℕ
  pub bytes_written : ℕ
  pub device : List ℕ

abbrev pub Ending : Type 0
Ending = Result × List ℕ

unfoldable pub erase_step : Kernel → ℕ → ℕ → Erasing → Step Erasing Ending
unfolding overwrite zero_bytes failure success
erase_step k buf total s =
    let to_write = min buf (total - s.bytes_written) in
    let round : Step Erasing Ending = elim (k.write_file s.round to_write) [
      | failed ↦ finish (failure (codes "Can't write zero bytes to partition"), s.device)
      | got zero ↦
          finish (failure (codes "Write operation returned 0 bytes for partition"), s.device)
      | got (suc n) ↦ again record {
        round = s.round + 1;
        bytes_written = s.bytes_written + suc n;
        device = overwrite s.bytes_written (take (suc n) (zero_bytes to_write)) s.device;
      }
    ] in
    if ltb s.bytes_written total
    then round
    else finish (success (codes "Successfully wrote zero bytes to partition"), s.device)

abbrev pub ended : Option Ending → Option (Outcome Ending)
ended none = none
ended (some e) = some (done e)

-- The loop over all rounds, as a task that ends, or still runs on the given fuel.
unfoldable pub erase_loop : Kernel → ℕ → ℕ → ℕ → List ℕ → Option (Outcome Ending)
unfolding erase_step
erase_loop k buf total fuel content = ended (
    iterate (erase_step k buf total) fuel record { round = 0; bytes_written = 0; device = content })

-- The question, unless the process is forced.
unfoldable pub confirm : Bool → ℕ → List ℕ → Outcome (Unit {0})
unfolding confirm_prompt
confirm forced total_tries typed =
    let asked = confirm_prompt 10 total_tries typed >>= λ r.
    if r.answer then done tt else throw_new (codes "Operation canceled by user.") in
    if forced then done tt else asked

module _ {G : Gpt} {D : Disks G} where
  unfoldable pub set_up_with : Option (BaseTable G D) → Task → Text → ℕ → Outcome ℕ
  set_up_with none t name buf = undefined
  set_up_with (some table) t name buf = setup_buffer_size t.file_size buf name table

  -- `setupBufferSize` on the object that the name chose.
  unfoldable pub set_up : Flags G D → Task → Text → ℕ → Outcome ℕ
  unfolding set_up_with
  set_up f t name buf =
      set_up_with (get_correct_table_obj name f.partition_tables.0 f.partition_tables.1 none).0 t
        name buf

  -- From the partition that was found on.
  unfoldable pub erase :
      Flags G D → Task → Text → Partition G → Option TableType → Option (Outcome Ending)
  unfolding buffer_for refused set_up confirm erase_loop failure
  erase f t name p t_type =
      let untouched = t.content_of name in
      before (size p) λ total.
        if total == 0
        then gives (failure (codes "Partition is empty")) untouched
        else if refused f t_type
        then gives (failure (codes "Used --logical (-l) flag but partition is not logical"))
            untouched
        else before (buffer_for t.buffer_size total) λ clamped.
          before (set_up f t name clamped) λ buf. before (absolute_path f.files p) λ path.
            if not (t.kernel name).can_open
            then gives (failure (codes "Can't open partition")) untouched
            else before (confirm f.force_process t.total_tries (t.typed name))
                λ u. erase_loop (t.kernel name) buf total t.fuel untouched

  unfoldable pub run_found :
      Flags G D → Task → Text → Option (Partition G) × Option TableType → Option (Outcome Ending)
  unfolding erase failure
  run_found f t name (none, t_type) =
      gives (failure (codes "Couldn't find partition")) (t.content_of name)
  run_found f t name (some p, t_type) = erase f t name p t_type

  -- `runAsync`
  unfoldable pub run_async : Flags G D → Task → Text → Option (Outcome Ending)
  unfolding find run_found
  run_async f t name = after (find f name) (run_found f t name)

  -- `run`
  unfoldable pub run : Flags G D → Task → List Text → Option (Outcome Bool)
  unfolding run_async end_with
  run f t partitions = end_with (map (λ n. result_of (run_async f t n)) partitions)
