-- ===== src/Plugins/Backup.antt =====
-- src/plugins/BackupPlugin.cpp
pub mod Laws
use pmt_renovated.Base.{
  ℕ, Bool, true, false, not, ◌&&◌, Option, none, some, List, [], ◌∷◌, ◌++◌, Text, codes, ltb, ◌==◌,
  is_empty, if◌then◌else◌, length,
}
use pmt_renovated.Helper.Error.{
  Outcome, done, threw, escaped, exited, undefined, throw_coded, ex_usage,
}
use pmt_renovated.Helper.Async.{Result}
use pmt_renovated.Helper.Sha256.{Entry, bytes, Digest, sha256_compare}
use pmt_renovated.PartitionMap.Partition.{Gpt, Partition, size, absolute_path}
use pmt_renovated.PartitionMap.Partition.Transfer.{Kernel, before, after, dump}
use pmt_renovated.PartitionMap.Table.{Disks}
use pmt_renovated.PartitionMap.Select.{TableType}
use pmt_renovated.Plugins.Work.{
  Flags, failure, success, buffer_for, in_directory, find, refused, gives, result_of, end_with,
}

-- What a task leaves behind: the output file is as it was; it holds these bytes; or it holds a part,
-- since reading or writing failed.
pub data Left : Type 0 where
  untouched : Left
  holds : List ℕ → Left
  partly : Left

-- The plugin's fields; whether a file exists; the answers of the kernel while a partition is read; the
-- content of each partition; OpenSSL's digest, and what stands at a path; the fuel of the loop. The
-- owner and the mode of the output file are left out.
pub record Task : Type 0 where
  pub buffer_size : ℕ
  pub verify : Bool
  pub file_exists : Text → Bool
  pub kernel : Text → Kernel
  pub content_of : Text → List ℕ
  pub digest : Digest
  pub entry_at : Text → Entry
  pub fuel : ℕ

-- The output of a partition in `run`: its own name with `.img`, or the name that was given.
unfoldable pub output_name : Text → Text → Option Text → Text
unfolding in_directory
output_name directory n none = in_directory directory (n ++ codes ".img")
output_name directory n (some given) = in_directory directory given

module _ {G : Gpt} {D : Disks G} where
  -- The verification, behind a dump that has ended with these bytes in the output file.
  unfoldable pub verified :
      Flags G D → Task → Partition G → List ℕ → Option (Outcome (Result × Left))
  unfolding failure success sha256_compare
  verified f t p out =
      let good = gives (success (codes "Partition successfully backed up")) (holds out) in
      let compared = before (absolute_path f.files p) (λ path.
        before (sha256_compare t.digest (t.entry_at path) (bytes out)) (λ same.
          if not same
          then gives (failure (codes "Verification failed: different SHA-256 hashes.")) (holds out)
          else good)) in
      if t.verify then compared else good

  -- The handler of the error that `dump` throws, and what follows it.
  unfoldable pub after_dump :
      Flags G D
      → Task
      → Partition G
      → Option (Outcome (Bool × List ℕ))
      → Option (Outcome (Result × Left))
  unfolding verified failure
  after_dump f t p none = none
  after_dump f t p (some (threw e)) = gives (failure (codes "Failed to write partition")) partly
  after_dump f t p (some (done (agree, out))) = verified f t p out
  after_dump f t p (some escaped) = some escaped
  after_dump f t p (some (exited n)) = some (exited n)
  after_dump f t p (some undefined) = some undefined

  -- From the partition that was found on.
  unfoldable pub backup :
      Flags G D
      → Task
      → Text
      → Text
      → Partition G
      → Option TableType
      → Option (Outcome (Result × Left))
  unfolding failure buffer_for refused after_dump
  backup f t name output p t_type = before (size p) λ total.
      if total == 0
      then gives (failure (codes "Partition is empty")) untouched
      else before (buffer_for t.buffer_size total) λ buf.
        if refused f t_type
        then gives (failure (codes "Used --logical (-l) flag but is not logical partition"))
            untouched
        else if t.file_exists output && not f.force_process
        then gives (failure (codes "File already exists. Remove it, or use --force (-f) flag."))
            untouched
        else after_dump f t p (dump f.files (t.kernel name) (t.content_of name) buf t.fuel p)

  unfoldable pub run_found :
      Flags G D
      → Task
      → Text
      → Text
      → Option (Partition G) × Option TableType
      → Option (Outcome (Result × Left))
  unfolding backup failure
  run_found f t name output (none, t_type) =
      gives (failure (codes "Couldn't find partition")) untouched
  run_found f t name output (some p, t_type) = backup f t name output p t_type

  -- `runAsync`
  unfoldable pub run_async : Flags G D → Task → Text → Text → Option (Outcome (Result × Left))
  unfolding find run_found
  run_async f t name output = after (find f name) (run_found f t name output)

  -- The tasks of `run`: with no outputs given, and with one for each partition.
  unfoldable pub default_tasks :
      Flags G D → Task → Text → List Text → List (Option (Outcome Result))
  unfolding run_async output_name
  default_tasks f t directory [] = []
  default_tasks f t directory (n ∷ names) =
      result_of (run_async f t n (output_name directory n none)) ∷ default_tasks f t directory names

  unfoldable pub named_tasks :
      Flags G D → Task → Text → List Text → List Text → List (Option (Outcome Result))
  unfolding run_async output_name
  named_tasks f t directory [] outputs = []
  named_tasks f t directory (n ∷ names) [] = []
  named_tasks f t directory (n ∷ names) (o ∷ outputs) =
      result_of (run_async f t n (output_name directory n (some o)))
      ∷ named_tasks f t directory names outputs

  -- `run`
  unfoldable pub run : Flags G D → Task → Text → List Text → List Text → Option (Outcome Bool)
  unfolding default_tasks named_tasks end_with
  run f t directory partitions outputs =
      if is_empty outputs
      then end_with (default_tasks f t directory partitions)
      else if length partitions == length outputs
      then end_with (named_tasks f t directory partitions outputs)
      else some (
          throw_coded (codes "You must provide an output name(s) as long as the partition name(s)")
            ex_usage)
