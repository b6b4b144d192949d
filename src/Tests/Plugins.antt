-- ===== src/Tests/Plugins.antt =====
-- A logical partition of 1,024 bytes that is flashed and erased (src/plugins).
use pmt_renovated.Base.{
  ℕ, zero, suc, ◌-◌, ◌≡◌, ◌↔◌, refl, ap, sym, ◌∙◌, true, false, Option, none, some, List, [], ◌∷◌,
  ◌++◌, arith, codes, text_eq,
}
use pmt_renovated.Helper.Error.{Outcome, done}
use pmt_renovated.Helper.Prompt.{confirm_prompt}
use pmt_renovated.PartitionMap.OpenPart.{Handle, may_write}
use pmt_renovated.PartitionMap.Partition.{Partition, size, name, absolute_path}
use pmt_renovated.PartitionMap.Partition.Transfer.{Answer, got, failed, to_open, zero_bytes}
use pmt_renovated.PartitionMap.Partition.Transfer.Write.{Accepts}
use pmt_renovated.PartitionMap.Table.Query
use pmt_renovated.PartitionMap.Table.Query.{named}
use pmt_renovated.PartitionMap.Dynamic
use pmt_renovated.PartitionMap.Dynamic.{Dynamic}
use pmt_renovated.PartitionMap.Select.{
  TableType, dynamic_type, classic, dynamic, get_correct_table_obj, setup_partition,
  found_or_undefined,
}
use pmt_renovated.PartitionMap.Select
use pmt_renovated.Manager.Inputs.{setup_buffer_size}
use pmt_renovated.Plugins.Work.{Flags, success, find, refused, gives}
use pmt_renovated.Plugins.Work.Search.{find-name}
use pmt_renovated.Plugins.Flash
use pmt_renovated.Plugins.Flash.Laws.{
  Flashed, Each, PairSucceeds, run_async_flashes, run_async-Flashed, run_iff,
}
use pmt_renovated.Plugins.Erase
use pmt_renovated.Plugins.Erase.Laws.{IsBounded, erased_message}
use pmt_renovated.Plugins.Erase.Safety.{Safe, run_async_erases, run_async-Safe}
use pmt_renovated.Tests.Partition.{toy_gpt, toy_handle, honest}
use pmt_renovated.Tests.Table.{toy_disks, links, scanned, system_part, super_table}

abbrev pub fill : ℕ → List ℕ
fill zero = []
fill (suc n) = 1 ∷ fill n

abbrev pub content : List ℕ
content = fill 1024

abbrev pub big_handle : Handle
big_handle = record toy_handle { size = 1024 }

abbrev pub system_big : Partition toy_gpt
system_big = record system_part { op = some big_handle }

abbrev pub big_table : Dynamic toy_gpt
big_table = record super_table { local_partitions = system_big ∷ [] }

abbrev pub flags : Flags toy_gpt toy_disks
flags = record {
  partition_tables = (some (classic scanned), some (dynamic big_table));
  on_logical = true;
  force_process = false;
  files = links;
  choices = [];
}

pub system_found : find flags (codes "system") ≡ some (done (some system_big, some dynamic_type))
unfolding find get_correct_table_obj setup_partition Select.has_partition Dynamic.has_partition
    Query.has_partition Dynamic.partition text_eq name named found_or_undefined
system_found = refl

honest-Accepts_big : Accepts honest 1024
honest-Accepts_big = record {
  reads = λ round count room. (count - 1, ap got (omega arith), omega arith);
  writes = λ round count offset inside. refl;
}

abbrev flash_task : Flash.Task
flash_task = record {
  buffer_size = 4096;
  delete_after_progress = true;
  image_of = λ t. some (9 ∷ 8 ∷ 7 ∷ []);
  removable = λ t. true;
  kernel = λ t. honest;
  content_of = λ t. content;
  fuel = 2000;
}

flashed_system :
    Flash.run_async flags flash_task (codes "system") (codes "a.img")
    ≡ gives
        (success (codes "Image successfully flashed to partition"))
        (Flash.holds ((9 ∷ 8 ∷ 7 ∷ []) ++ zero_bytes 1021) true)
unfolding to_open absolute_path may_write refused
flashed_system =
    run_async_flashes flags flash_task (codes "system") (codes "a.img") (9 ∷ 8 ∷ 7 ∷ []) system_big
      (some dynamic_type) big_handle (codes "/dev/block/sda1") refl system_found refl refl refl refl
      refl (omega arith) (omega arith) (omega arith) refl refl (omega arith) (omega arith)
      honest-Accepts_big (omega arith)

run_async_flashes_example :
    Flash.run_async flags flash_task (codes "system") (codes "a.img")
    ≡ gives
        (success (codes "Image successfully flashed to partition"))
        (Flash.holds ((9 ∷ 8 ∷ 7 ∷ []) ++ zero_bytes 1021) true)
unfolding to_open absolute_path may_write refused
run_async_flashes_example =
    run_async_flashes flags flash_task (codes "system") (codes "a.img") (9 ∷ 8 ∷ 7 ∷ []) system_big
      (some dynamic_type) big_handle (codes "/dev/block/sda1") refl system_found refl refl refl refl
      refl (omega arith) (omega arith) (omega arith) refl refl (omega arith) (omega arith)
      honest-Accepts_big (omega arith)

find-name_example : name system_big ≡ codes "system"
unfolding Query.duplicate_partition_positions named text_eq name
find-name_example =
    find-name flags (codes "system") scanned big_table [] system_big (some dynamic_type) refl
      (refl, (refl, tt)) refl system_found

run_async-Flashed_example :
    (bytes : List ℕ) × (some (9 ∷ 8 ∷ 7 ∷ []) ≡ some bytes)
    × (p : Partition toy_gpt) × (t_type : Option TableType) × (find flags (codes "system")
        ≡ some (done (some p, t_type)))
    × Flashed flags flash_task
        (codes "system")
        (codes "a.img")
        bytes
        p
        t_type
        (Flash.holds ((9 ∷ 8 ∷ 7 ∷ []) ++ zero_bytes 1021) true)
unfolding success
run_async-Flashed_example =
    run_async-Flashed flags flash_task (codes "system") (codes "a.img") flashed_system refl

run_iff_example :
    (Flash.run flags flash_task [] (codes "system" ∷ []) (codes "a.img" ∷ []) ≡ some (done true))
    ↔ Each flags flash_task
        (PairSucceeds flags flash_task [])
        (codes "system" ∷ [])
        (codes "a.img" ∷ [])
run_iff_example = run_iff flags flash_task [] (codes "system" ∷ []) (codes "a.img" ∷ [])

abbrev erase_task : Erase.Task
erase_task = record {
  buffer_size = 4096;
  file_size = λ t. none;
  kernel = λ t. honest;
  typed = λ t. b'?' ∷ b'y' ∷ [];
  total_tries = 1;
  content_of = λ t. content;
  fuel = 2000;
}

system_fits : Erase.set_up flags erase_task (codes "system") 1024 ≡ done 1024
unfolding Erase.set_up get_correct_table_obj Select.has_partition Dynamic.has_partition
    Query.has_partition Dynamic.partition text_eq name named setup_buffer_size size
system_fits = refl

erased_system :
    Erase.run_async flags erase_task (codes "system")
    ≡ gives (success erased_message) (zero_bytes 1024)
unfolding Erase.confirm confirm_prompt size absolute_path refused
erased_system =
    run_async_erases flags erase_task (codes "system") system_big (some dynamic_type) 1024
      (codes "/dev/block/sda1") system_found refl refl (omega arith) (omega arith) system_fits
      (omega arith) refl refl refl
      (λ round count room. (count - 1, ap got (omega arith), omega arith)) (omega arith)

run_async_erases_example :
    Erase.run_async flags erase_task (codes "system")
    ≡ gives (success erased_message) (zero_bytes 1024)
unfolding Erase.confirm confirm_prompt size absolute_path refused
run_async_erases_example =
    run_async_erases flags erase_task (codes "system") system_big (some dynamic_type) 1024
      (codes "/dev/block/sda1") system_found refl refl (omega arith) (omega arith) system_fits
      (omega arith) refl refl refl
      (λ round count room. (count - 1, ap got (omega arith), omega arith)) (omega arith)

number : Answer → ℕ
number (got n) = n
number failed = 0

honest-IsBounded : IsBounded honest
unfolding number
honest-IsBounded round count n e = omega (arith, ap number e)

the_partition : Option (Outcome (Option (Partition toy_gpt) × Option TableType)) → Partition toy_gpt
the_partition (some (done (some p, t_type))) = p
the_partition m = system_big

system_sized :
    (p : Partition toy_gpt) (t_type : Option TableType)
    → find flags (codes "system") ≡ some (done (some p, t_type))
    → size p ≡ done 1024
unfolding the_partition size
system_sized p t_type e = ap (λ m. size (the_partition m)) (sym e ∙ system_found)

run_async-Safe_example :
    Safe flags erase_task (codes "system") (success erased_message, zero_bytes 1024)
run_async-Safe_example =
    run_async-Safe flags erase_task (codes "system") honest-IsBounded system_sized erased_system
