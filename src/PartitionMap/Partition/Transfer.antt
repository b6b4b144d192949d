-- ===== src/PartitionMap/Partition/Transfer.antt =====
-- partition.hpp: `dump` and `write`, the loops that copy a partition into a file and an image into a
-- partition. What the kernel answers to each call is an argument.
pub mod Dump
pub mod Write
use pmt_renovated.Base.{
  ℕ, zero, suc, ◌+◌, ◌-◌, ◌%◌, ◌^◌, min, Bool, true, false, Option, none, some, List, [], ◌∷◌, ◌++◌,
  Text, codes, is_empty, ltb, leb, ◌==◌, if◌then◌else◌, length, take, drop, Step, again, finish,
  iterate, map,
}
use pmt_renovated.Helper.Error.{Outcome, done, threw, escaped, exited, undefined, ◌>>=◌, throw_new}
use pmt_renovated.PartitionMap.OpenPart.{may_write}
use pmt_renovated.PartitionMap.Partition.{Gpt, Files, Partition, path, absolute_path, size, name}

-- The number that `read`, `write`, `pread` or `pwrite` returns; `failed` is -1.
pub data Answer : Type 0 where
  got : ℕ → Answer
  failed : Answer

-- The answers, by the number of the round in which the call stands.
pub record Kernel : Type 0 where
  -- `pread` and `pwrite` of the partition: round, count and offset.
  pub read_at : ℕ → ℕ → ℕ → Answer
  pub write_at : ℕ → ℕ → ℕ → Answer
  -- `read` and `write` of the file: round and count.
  pub read_file : ℕ → ℕ → Answer
  pub write_file : ℕ → ℕ → Answer
  -- Whether `errno` is `EPERM` after the round's `pread`.
  pub is_eperm : ℕ → Bool
  -- Whether `write` of `SIZE_MAX` bytes answers -1.
  pub refuses_size_max : Bool
  -- Whether the output file, and the image, can be opened; the image's size, unless that fails.
  pub can_create : Bool
  pub can_open : Bool
  pub file_size : Option ℕ

-- The loop of `dump`: the round, the bytes read so far, and what is in the output file.
pub record Dumping : Type 0 where
  pub round : ℕ
  pub so_far : ℕ
  pub output : List ℕ

unfoldable pub dump_write :
    Kernel → List ℕ → ℕ → Dumping → ℕ → Step Dumping (Outcome (Bool × List ℕ))
dump_write k source to_read s n = elim (k.write_file s.round n) [
  | failed ↦ finish (throw_new (codes "Cannot write"))
  | got m ↦
      if m == n
      then again record {
        round = s.round + 1;
        so_far = (s.so_far + n) % 2 ^ 64;
        output = s.output ++ take n (drop s.so_far source);
      }
      else finish (throw_new (codes "Cannot write"))
]

-- `pread` answered -1, and `errno` is not `EPERM`: -1 is the count of the `write`, and is added.
unfoldable pub dump_failed : Kernel → Dumping → Step Dumping (Outcome (Bool × List ℕ))
dump_failed k s =
    if k.refuses_size_max
    then again (record s { round = s.round + 1; so_far = (s.so_far + (2 ^ 64 - 1)) % 2 ^ 64 })
    else finish (throw_new (codes "Cannot write"))

unfoldable pub dump_step :
    Kernel → List ℕ → ℕ → ℕ → Dumping → Step Dumping (Outcome (Bool × List ℕ))
unfolding dump_write dump_failed
dump_step k source buffer total s =
    let to_read = min buffer (total - s.so_far) in
    let denied : Step Dumping (Outcome (Bool × List ℕ)) =
      finish (throw_new (codes "Cannot read")) in
    let round : Step Dumping (Outcome (Bool × List ℕ)) = elim (k.read_at s.round to_read s.so_far) [
      | failed ↦ if k.is_eperm s.round then denied else dump_failed k s
      | got zero ↦ if k.is_eperm s.round then denied else dump_write k source to_read s 0
      | got (suc n) ↦ dump_write k source to_read s (suc n)
    ] in
    if ltb s.so_far total then round else finish (done (s.so_far == total, s.output))

-- A result, or `none` for a loop that still runs on the given fuel, after a step that may fail.
abbrev pub before {ℓ κ} :
    {A : Type ℓ} {B : Type κ} → Outcome A → (A → Option (Outcome B)) → Option (Outcome B)
before (done a) f = f a
before (threw e) f = some (threw e)
before escaped f = some escaped
before (exited n) f = some (exited n)
before undefined f = some undefined

module _ {G : Gpt} where
  unfoldable pub to_open : Files → Partition G → Outcome Text
  to_open files p = if p.is_logical then absolute_path files p else path p

  -- `dump`, of a partition whose content is `source`: the result and the content of the output file.
  unfoldable pub dump :
      Files → Kernel → List ℕ → ℕ → ℕ → Partition G → Option (Outcome (Bool × List ℕ))
  unfolding to_open dump_step
  dump files k source bufsize fuel p = before (to_open files p) λ _. elim (p.op) [
    | none ↦ some (throw_new (codes "openpart_t* object invalid"))
    | some h ↦
        if k.can_create
        then before (size p) (λ total.
          iterate (dump_step k source (min bufsize total) total) fuel
            record { round = 0; so_far = 0; output = [] })
        else some (throw_new (codes "Cannot create/open"))
  ]

-- `pwrite` of bytes at an offset within the device.
unfoldable pub overwrite : ℕ → List ℕ → List ℕ → List ℕ
overwrite offset bytes [] = []
overwrite zero [] (x ∷ device) = x ∷ device
overwrite zero (b ∷ bytes) (x ∷ device) = b ∷ overwrite zero bytes device
overwrite (suc offset) bytes (x ∷ device) = x ∷ overwrite offset bytes device

-- The loops of `write`: the round, the bytes written so far, and what is on the device.
pub record Writing : Type 0 where
  pub round : ℕ
  pub so_far : ℕ
  pub device : List ℕ

-- `openpart_write` of bytes.
unfoldable pub put : Kernel → Bool → Writing → List ℕ → Answer
put k writable s bytes = if writable then k.write_at s.round (length bytes) s.so_far else failed

unfoldable pub write_step :
    Kernel → Bool → List ℕ → ℕ → ℕ → Writing → Step Writing (Outcome Writing)
unfolding put overwrite
write_step k writable image image_size buffer s =
    let to_read = min buffer (image_size - s.so_far) in
    let unread : Step Writing (Outcome Writing) = finish (throw_new (codes "Cannot read")) in
    let round : Step Writing (Outcome Writing) = elim (k.read_file s.round to_read) [
      | failed ↦ unread
      | got zero ↦ unread
      | got (suc n) ↦
          let bytes = take (suc n) (drop s.so_far image) in
          elim (put k writable s bytes) [
            | failed ↦ finish (throw_new (codes "Cannot write"))
            | got m ↦
                if m == suc n
                then again record {
                  round = s.round + 1;
                  so_far = s.so_far + suc n;
                  device = overwrite s.so_far bytes s.device;
                }
                else finish (throw_new (codes "Cannot write"))
          ]
    ] in
    if ltb s.so_far image_size then round else finish (done s)

unfoldable pub zero_bytes : ℕ → List ℕ
zero_bytes zero = []
zero_bytes (suc n) = 0 ∷ zero_bytes n

unfoldable pub fill_step : Kernel → Bool → ℕ → ℕ → Writing → Step Writing (Outcome Writing)
unfolding put overwrite zero_bytes
fill_step k writable total buffer s =
    let count = min buffer (total - s.so_far) in
    let stuck : Step Writing (Outcome Writing) =
      finish (throw_new (codes "Cannot fill the outside of partition (of image)")) in
    let round : Step Writing (Outcome Writing) = elim (put k writable s (zero_bytes count)) [
      | failed ↦ stuck
      | got zero ↦ stuck
      | got (suc n) ↦ again record {
        round = s.round + 1;
        so_far = s.so_far + suc n;
        device = overwrite s.so_far (take (suc n) (zero_bytes count)) s.device;
      }
    ] in
    if ltb s.so_far total then round else finish (done s)

-- The loop's result, handed to what follows.
abbrev pub after {ℓ κ} :
    {A : Type ℓ} {B : Type κ} → Option (Outcome A) → (A → Option (Outcome B)) → Option (Outcome B)
after none f = none
after (some m) f = before m f

module _ {G : Gpt} where
  -- `write`, of an image to a partition whose content is `device`: the result and the new content.
  unfoldable pub write :
      Files → Kernel → List ℕ → List ℕ → ℕ → ℕ → Partition G → Option (Outcome (Bool × List ℕ))
  unfolding to_open write_step fill_step
  write files k image device bufsize fuel p = before (to_open files p) λ _. elim (k.file_size) [
    | none ↦ some (throw_new (codes "Cannot get size of"))
    | some image_size ↦ before (size p) λ total.
        let copied =
          after
            (iterate (write_step k (may_write p.op) image image_size (min bufsize total)) fuel
              record { round = 0; so_far = 0; device = device })
            (λ s.
              after (iterate (fill_step k (may_write p.op) total (min bufsize total)) fuel s)
                (λ t. some (done (t.so_far == image_size, t.device)))) in
        if ltb total image_size
        then some (throw_new (codes "Image is too large"))
        else if k.can_open
        then copied
        else some (throw_new (codes "Cannot open"))
  ]
