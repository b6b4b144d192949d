-- ===== src/Plugins/Flash.antt =====
-- src/plugins/FlashPlugin.cpp
pub mod Laws
use pmt_renovated.Base.{
  ℕ, ◌≡◌, refl, Bool, true, false, not, Option, none, some, List, [], ◌∷◌, Text, codes, ltb, ◌==◌,
  ◌^◌, ◌-◌, if◌then◌else◌, length, map,
}
use pmt_renovated.Helper.Error.{
  Outcome, done, threw, escaped, exited, undefined, throw_coded, ex_usage,
}
use pmt_renovated.Helper.Async.{Result}
use pmt_renovated.PartitionMap.Partition.{Gpt, Partition, size}
use pmt_renovated.PartitionMap.Partition.Transfer.{Kernel, before, after, write}
use pmt_renovated.PartitionMap.Table.{Disks}
use pmt_renovated.PartitionMap.Select.{TableType}
use pmt_renovated.Plugins.Work.{
  Flags, failure, success, buffer_for, in_directory, find, refused, gives, result_of, end_with,
}

-- What a task leaves behind: nothing of the partition is changed; the partition holds this content,
-- and the image file was removed or not; or a write that failed has changed a part of it.
pub data Left : Type 0 where
  untouched : Left
  holds : List ℕ → Bool → Left
  partly : Left

-- The plugin's fields; the image files of the system with their contents, and whether one can be
-- removed; the answers of the kernel while an image is flashed; the content of each partition; and
-- the fuel of the loops.
pub record Task : Type 0 where
  pub buffer_size : ℕ
  pub delete_after_progress : Bool
  pub image_of : Text → Option (List ℕ)
  pub removable : Text → Bool
  pub kernel : Text → Kernel
  pub content_of : Text → List ℕ
  pub fuel : ℕ

-- `fileSize` into an unsigned number.
unfoldable pub unsigned_size : Option ℕ → ℕ
unsigned_size none = 2 ^ 64 - 1
unsigned_size (some n) = n

-- The handler of the error that `write` throws, and what follows it.
unfoldable pub after_write :
    Task → Text → Option (Outcome (Bool × List ℕ)) → Option (Outcome (Result × Left))
unfolding failure success
after_write t image none = none
after_write t image (some (threw e)) = gives (failure (codes "Failed to write image")) partly
after_write t image (some (done (agree, content))) =
    gives (success (codes "Image successfully flashed to partition"))
      (holds content (if t.delete_after_progress then t.removable image else false))
after_write t image (some escaped) = some escaped
after_write t image (some (exited n)) = some (exited n)
after_write t image (some undefined) = some undefined

module _ {G : Gpt} {D : Disks G} where
  -- From the partition that was found on.
  unfoldable pub flash :
      Flags G D
      → Task
      → Text
      → Text
      → List ℕ
      → Partition G
      → Option TableType
      → Option (Outcome (Result × Left))
  unfolding failure success buffer_for refused unsigned_size after_write
  flash f t name image bytes p t_type =
      let image_size = unsigned_size ((t.kernel image).file_size) in
      before (size p) λ total.
        if total == 0
        then gives (failure (codes "Partition is empty")) untouched
        else if image_size == 0
        then gives (failure (codes "Image file is empty")) untouched
        else before (buffer_for t.buffer_size total) λ buf.
          if ltb total image_size
          then gives (failure (codes "Image file is larger than partition")) untouched
          else if refused f t_type
          then gives (failure (codes "Used --logical (-l) flag but partition is not logical"))
              untouched
          else after_write t image
              (write f.files (t.kernel image) bytes (t.content_of name) buf t.fuel p)

  -- `runAsync` behind the search for the partition.
  unfoldable pub run_found :
      Flags G D
      → Task
      → Text
      → Text
      → List ℕ
      → Option (Partition G) × Option TableType
      → Option (Outcome (Result × Left))
  unfolding flash failure
  run_found f t name image bytes (none, t_type) =
      gives (failure (codes "Couldn't find partition")) untouched
  run_found f t name image bytes (some p, t_type) = flash f t name image bytes p t_type

  -- `runAsync`, of an image file that is there with these bytes, or is not there.
  unfoldable pub run_image :
      Flags G D → Task → Text → Text → Option (List ℕ) → Option (Outcome (Result × Left))
  unfolding run_found find failure
  run_image f t name image none = gives (failure (codes "Couldn't find image file")) untouched
  run_image f t name image (some bytes) = after (find f name) (run_found f t name image bytes)

  -- `runAsync`
  unfoldable pub run_async : Flags G D → Task → Text → Text → Option (Outcome (Result × Left))
  unfolding run_image
  run_async f t name image = run_image f t name image (t.image_of image)

  -- The tasks of `run`, in their order.
  unfoldable pub tasks :
      Flags G D → Task → Text → List Text → List Text → List (Option (Outcome Result))
  unfolding run_async in_directory
  tasks f t directory [] images = []
  tasks f t directory (n ∷ names) [] = []
  tasks f t directory (n ∷ names) (i ∷ images) =
      result_of (run_async f t n (in_directory directory i)) ∷ tasks f t directory names images

  -- `run`
  unfoldable pub run : Flags G D → Task → Text → List Text → List Text → Option (Outcome Bool)
  unfolding tasks end_with
  run f t directory partitions image_names =
      if length partitions == length image_names
      then end_with (tasks f t directory partitions image_names)
      else some (
          throw_coded (codes "You must provide an image file(s) as long as the partition name(s)")
            ex_usage)
