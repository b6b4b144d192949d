-- ===== src/Plugins/Flash/Laws.antt =====
-- What a task of the flash plugin guarantees, and when it succeeds (src/plugins/FlashPlugin.cpp).
use pmt_renovated.Base.{
  ℕ, ◌-◌, ◌^◌, ◌≤◌, ◌<◌, ◌==◌, min, ◌≡◌, refl, ap, subst, ◌∙◌, sym, ◌↔◌, inl, inr, Bool, true,
  false, Option, none, some, List, [], ◌∷◌, ◌++◌, All, codes, Text, arith, ltb, if_true,
  if◌then◌else◌, if-cases, length,
}
use pmt_renovated.Helper.Error.{Outcome, done, threw, escaped, exited, undefined}
use pmt_renovated.Helper.Async.{Result}
use pmt_renovated.PartitionMap.OpenPart.{Handle, may_write}
use pmt_renovated.PartitionMap.Partition.{Gpt, Partition, size}
use pmt_renovated.PartitionMap.Partition.Transfer.{write, to_open, zero_bytes}
use pmt_renovated.PartitionMap.Partition.Transfer.Dump.{size_of}
use pmt_renovated.PartitionMap.Partition.Transfer.Write.{Accepts, write_fills}
use pmt_renovated.PartitionMap.Table.{Disks}
use pmt_renovated.PartitionMap.Select.{TableType}
use pmt_renovated.Plugins.Work.{
  Flags, failure, success, buffer_for, find, refused, gives, result_of, min_buffer_size,
}
use pmt_renovated.Plugins.Work.Laws.{
  file_in, in_directory_lem, before-eq-done, after-eq-done, buffer_for_fits, Succeeded,
  end_with_iff, gives_injective, failed_false, passed,
}
use pmt_renovated.Plugins.Flash.{
  Left, holds, Task, unsigned_size, after_write, flash, run_found, run_image, run_async, tasks, run,
}

-- The size of an image as the task reads it.
abbrev pub image_size : Task → Text → ℕ
image_size t image = unsigned_size ((t.kernel image).file_size)

whole_size : (n : ℕ) → unsigned_size (some n) ≡ n
unfolding unsigned_size
whole_size n = refl

after_write_success :
    (t : Task) (image : Text) (w : Option (Outcome (Bool × List ℕ))) {r : Result} {l : Left}
    → after_write t image w ≡ some (done (r, l))
    → r.result ≡ true
    → (agree : Bool) × (content : List ℕ) × (w ≡ some (done (agree, content)))
      × (l ≡ holds content (if t.delete_after_progress then t.removable image else false))
unfolding after_write failure success
after_write_success t image none e h = cc
after_write_success t image (some (done (agree, content))) e h =
    (agree, content, refl, sym ((gives_injective e).1))
after_write_success t image (some (threw x)) e h = failed_false _ e h
after_write_success t image (some escaped) e h = cc
after_write_success t image (some (exited n)) e h = cc
after_write_success t image (some undefined) e h = cc

module _ {G : Gpt} {D : Disks G} (f : Flags G D) (t : Task) (name image : Text) (bytes : List ℕ)
    (p : Partition G) (t_type : Option TableType) where
  -- What holds of the partition when its task succeeds.
  pub record Flashed (l : Left) : Type 0 where
    pub total : ℕ
    pub known : size p ≡ done total
    pub not_empty : 0 < image_size t image
    pub fits : image_size t image ≤ total
    pub allowed : refused f t_type ≡ false
    pub buf : ℕ
    pub buffered : buffer_for t.buffer_size total ≡ done buf
    pub agree : Bool
    pub content : List ℕ
    pub wrote :
        write f.files (t.kernel image) bytes (t.content_of name) buf t.fuel p
        ≡ some (done (agree, content))
    pub left : l ≡ holds content (if t.delete_after_progress then t.removable image else false)

  pub flash_success :
      {r : Result} {l : Left}
      → flash f t name image bytes p t_type ≡ some (done (r, l))
      → r.result ≡ true
      → Flashed l
  unfolding flash
  flash_success {r} {l} e h =
      let (total, known, e1) = before-eq-done (size p) _ e in
      let (some_there, e2) = passed (total == 0) _ _ _ e1 h in
      let (an_image, e3) = passed (image_size t image == 0) _ _ _ e2 h in
      let (buf, buffered, e4) = before-eq-done (buffer_for t.buffer_size total) _ e3 in
      let (not_larger, e5) = passed (ltb total (image_size t image)) _ _ _ e4 h in
      let (allowed, e6) = passed (refused f t_type) _ _ _ e5 h in
      let (agree, content, wrote, left) = after_write_success t image _ e6 h in
      record {
        total = total;
        known = known;
        not_empty = ground arith;
        fits = ground arith;
        allowed = allowed;
        buf = buf;
        buffered = buffered;
        agree = agree;
        content = content;
        wrote = wrote;
        left = left;
      }

module _ {G : Gpt} {D : Disks G} (f : Flags G D) (t : Task) where
  found_success :
      (name image : Text) (bytes : List ℕ) (found : Option (Partition G) × Option TableType)
      {r : Result} {l : Left}
      → run_found f t name image bytes found ≡ some (done (r, l))
      → r.result ≡ true
      → (p : Partition G) × (t_type : Option TableType) × (found ≡ (some p, t_type))
        × Flashed f t name image bytes p t_type l
  unfolding run_found
  found_success name image bytes (none, t_type) e h = failed_false _ e h
  found_success name image bytes (some p, t_type) e h =
      (p, t_type, refl, flash_success f t name image bytes p t_type e h)

  image_success :
      (name image : Text) (o : Option (List ℕ)) {r : Result} {l : Left}
      → run_image f t name image o ≡ some (done (r, l))
      → r.result ≡ true
      → (bytes : List ℕ) × (o ≡ some bytes)
        × (p : Partition G) × (t_type : Option TableType) × (find f name
            ≡ some (done (some p, t_type)))
        × Flashed f t name image bytes p t_type l
  unfolding run_image
  image_success name image none e h = failed_false _ e h
  image_success name image (some bytes) e h =
      let (found, searched, e1) = after-eq-done (find f name) _ e in
      let (p, t_type, which, flashed) = found_success name image bytes found e1 h in
      (bytes, refl, p, t_type, searched ∙ ap (λ x. some (done x)) which, flashed)

  -- What holds of a task that succeeds: the image file is there, the name leads to a partition, the
  -- image is not empty and fits, a logical partition was not asked for in vain, and the image was
  -- written with the content that is left behind.
  pub run_async-Flashed :
      (name image : Text) {r : Result} {l : Left}
      → run_async f t name image ≡ some (done (r, l))
      → r.result ≡ true
      → (bytes : List ℕ) × (t.image_of image ≡ some bytes)
        × (p : Partition G) × (t_type : Option TableType) × (find f name
            ≡ some (done (some p, t_type)))
        × Flashed f t name image bytes p t_type l
  unfolding run_async
  run_async-Flashed name image e h = image_success name image (t.image_of image) e h

  -- Where the name leads to a partition that is not refused, whose path is known and which is open for
  -- writing, whose size is that of its content and below `UINT64_MAX`, the image file opens, is not empty
  -- and not larger than the partition, the partition and the buffer size are at least 1,024 bytes, the
  -- kernel reads at least one byte at a time and writes what it is given, and the fuel is more than the
  -- size of the partition: the task succeeds, the partition holds the image and zeros behind it, and the
  -- image file is deleted exactly when that was asked for and can be done.
  pub run_async_flashes :
      (name image : Text) (bytes : List ℕ) (p : Partition G) (t_type : Option TableType)
      (h : Handle) (path : Text)
      → t.image_of image ≡ some bytes
      → find f name ≡ some (done (some p, t_type))
      → refused f t_type ≡ false
      → to_open f.files p ≡ done path
      → p.op ≡ some h
      → may_write p.op ≡ true
      → h.size ≡ length (t.content_of name)
      → length (t.content_of name) < 2 ^ 64 - 1
      → min_buffer_size ≤ t.buffer_size
      → min_buffer_size ≤ length (t.content_of name)
      → (t.kernel image).file_size ≡ some (length bytes)
      → (t.kernel image).can_open ≡ true
      → 0 < length bytes
      → length bytes ≤ length (t.content_of name)
      → Accepts (t.kernel image) (length (t.content_of name))
      → length (t.content_of name) < t.fuel
      → run_async f t name image
        ≡ gives (success (codes "Image successfully flashed to partition")) (
            holds
              (bytes ++ zero_bytes (length (t.content_of name) - length bytes))
              (if t.delete_after_progress then t.removable image else false))
  unfolding run_async run_image run_found flash
  run_async_flashes name image bytes p t_type h path file found allowed opened e writable whole
        small roomy large sized can some_bytes fits laws enough =
      let device = t.content_of name in
      let known : size p ≡ done (length device) = size_of p h e (rw whole small) ∙ ap done whole in
      let counted : image_size t image ≡ length bytes =
        ap unsigned_size sized ∙ whole_size (length bytes) in
      let not_empty : (length device == 0) ≡ false = ground arith in
      let some_image : (length bytes == 0) ≡ false = ground arith in
      let not_larger : ltb (length device) (length bytes) ≡ false = ground arith in
      let buffered = buffer_for_fits t.buffer_size (length device) roomy large in
      let wrote =
        write_fills f.files (t.kernel image) bytes device (min t.buffer_size (length device)) t.fuel
          p h path opened e writable whole small sized can fits (ground arith) (ground arith) laws
          enough in
      rw
        (
          file, run_image, found, known, not_empty, counted, some_image, buffered, not_larger,
          allowed, wrote, after_write,
        )
        refl

  -- The pairs of a name and an image, when there are as many of both.
  abbrev pub Each : (Text → Text → Type 0) → List Text → List Text → Type 0
  Each P [] [] = Unit
  Each P [] (i ∷ images) = ⊥
  Each P (n ∷ names) [] = ⊥
  Each P (n ∷ names) (i ∷ images) = P n i × Each P names images

  abbrev pub PairSucceeds : Text → Text → Text → Type 0
  PairSucceeds directory n i = Succeeded (result_of (run_async f t n (file_in directory i)))

  pairs_of :
      (directory : Text) (names images : List Text)
      → length names ≡ length images
      → All Succeeded (tasks f t directory names images)
      → Each (PairSucceeds directory) names images
  unfolding tasks
  pairs_of directory [] [] same h = tt
  pairs_of directory [] (i ∷ images) same h = absurd (omega arith)
  pairs_of directory (n ∷ names) [] same h = absurd (omega arith)
  pairs_of directory (n ∷ names) (i ∷ images) same (now, h) = (
    subst (λ file. Succeeded (result_of (run_async f t n file))) (in_directory_lem directory i) now,
    pairs_of directory names images (omega arith) h,
  )

  tasks_of :
      (directory : Text) (names images : List Text)
      → Each (PairSucceeds directory) names images
      → (length names ≡ length images) × All Succeeded (tasks f t directory names images)
  unfolding tasks
  tasks_of directory [] [] h = (refl, tt)
  tasks_of directory [] (i ∷ images) h = absurd h
  tasks_of directory (n ∷ names) [] h = absurd h
  tasks_of directory (n ∷ names) (i ∷ images) (now, h) =
      let (same, all) = tasks_of directory names images h in
      (
        omega arith,
        (
          subst (λ file. Succeeded (result_of (run_async f t n file)))
              (sym (in_directory_lem directory i)) now,
          all,
        ),
      )

  -- The plugin returns true exactly when there are as many images as names and the task of each name,
  -- with the image of the same place in the given directory, succeeds.
  pub run_iff :
      (directory : Text) (names images : List Text)
      → (run f t directory names images ≡ some (done true))
        ↔ Each (PairSucceeds directory) names images
  unfolding run
  run_iff directory names images = (
    (λ e. elim (if-cases (length names == length images) _ _ e) [
      | inl (same, ended) ↦
          pairs_of directory names images (ground arith) ((end_with_iff _).0 ended)
      | inr (other, thrown) ↦ absurd cc
    ]),
    λ h.
        let (same, all) = tasks_of directory names images h in
        let equal : (length names == length images) ≡ true = ground arith in
        if_true _ _ equal ∙ (end_with_iff _).1 all,
  )
