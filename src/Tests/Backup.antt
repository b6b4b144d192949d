-- ===== src/Tests/Backup.antt =====
-- The partition of 1,024 bytes that is backed up (src/plugins/BackupPlugin.cpp).
use pmt_renovated.Base.{◌-◌, ◌≡◌, refl, ap, false, Option, none, some, arith, codes, text_eq}
use pmt_renovated.Helper.Error.{done}
use pmt_renovated.Helper.Sha256.{missing}
use pmt_renovated.PartitionMap.Partition.{Partition, size, name, absolute_path}
use pmt_renovated.PartitionMap.Partition.Transfer.{got, to_open}
use pmt_renovated.PartitionMap.Partition.Transfer.Dump.{Serves}
use pmt_renovated.PartitionMap.Table.Query
use pmt_renovated.PartitionMap.Table.Query.{named}
use pmt_renovated.PartitionMap.Dynamic
use pmt_renovated.PartitionMap.Dynamic.{Dynamic}
use pmt_renovated.PartitionMap.Select.{
  TableType, dynamic_type, classic, dynamic, get_correct_table_obj, setup_partition,
  found_or_undefined,
}
use pmt_renovated.PartitionMap.Select
use pmt_renovated.Plugins.Work.{success, failure, find, refused, gives, buffer_for, clamp}
use pmt_renovated.Plugins.Backup
use pmt_renovated.Plugins.Backup.Laws.{
  BackedUp, run_async_backs_up, run_async-BackedUp, run_async_keeps,
}
use pmt_renovated.Helper.Async.{Result}
use pmt_renovated.Tests.Partition.{toy_gpt, honest}
use pmt_renovated.Tests.Plugins.{content, big_handle, system_big, flags, system_found}

abbrev backup_task : Backup.Task
backup_task = record {
  buffer_size = 4096;
  verify = false;
  file_exists = λ t. text_eq t (codes "old.img");
  kernel = λ t. honest;
  content_of = λ t. content;
  digest = λ c. none;
  entry_at = λ t. missing;
  fuel = 2000;
}

honest-Serves_big : Serves honest 1024
honest-Serves_big = record {
  reads = λ round count offset room inside. (count - 1, ap got (omega arith), omega arith);
  writes = λ round count. refl;
}

saved_system :
    Backup.run_async flags backup_task (codes "system") (codes "new.img")
    ≡ gives (success (codes "Partition successfully backed up")) (Backup.holds content)
unfolding to_open absolute_path refused text_eq
saved_system =
    run_async_backs_up flags backup_task (codes "system") (codes "new.img") system_big
      (some dynamic_type) big_handle (codes "/dev/block/sda1") system_found refl refl refl refl refl
      refl (omega arith) refl (omega arith) (omega arith) honest-Serves_big (omega arith)

run_async_backs_up_example :
    Backup.run_async flags backup_task (codes "system") (codes "new.img")
    ≡ gives (success (codes "Partition successfully backed up")) (Backup.holds content)
unfolding to_open absolute_path refused text_eq
run_async_backs_up_example =
    run_async_backs_up flags backup_task (codes "system") (codes "new.img") system_big
      (some dynamic_type) big_handle (codes "/dev/block/sda1") system_found refl refl refl refl refl
      refl (omega arith) refl (omega arith) (omega arith) honest-Serves_big (omega arith)

run_async-BackedUp_example :
    (p : Partition toy_gpt) × (t_type : Option TableType) × (find flags (codes "system")
      ≡ some (done (some p, t_type)))
    × BackedUp flags backup_task (codes "system") (codes "new.img") p t_type (Backup.holds content)
unfolding success
run_async-BackedUp_example =
    run_async-BackedUp flags backup_task (codes "system") (codes "new.img") saved_system refl

abbrev refusal : Result
refusal = record {
  message = codes "File already exists. Remove it, or use --force (-f) flag.";
  result = false;
}

run_async_keeps_example : (Backup.untouched ≡ Backup.untouched) × (refusal.result ≡ false)
unfolding Backup.run_async Backup.run_found Backup.backup find get_correct_table_obj setup_partition
    Select.has_partition Dynamic.has_partition Query.has_partition Dynamic.partition text_eq name
    named found_or_undefined size refused buffer_for clamp failure
run_async_keeps_example =
    run_async_keeps flags backup_task (codes "system") (codes "old.img") {r = refusal}
      {l = Backup.untouched} refl refl refl
