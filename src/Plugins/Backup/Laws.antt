-- ===== src/Plugins/Backup/Laws.antt =====
-- What a task of the backup plugin guarantees, and when it succeeds (src/plugins/BackupPlugin.cpp).
use pmt_renovated.Base.{
  ℕ, ◌-◌, ◌^◌, ◌≤◌, ◌<◌, min, ◌≡◌, refl, ap, ap₂, ◌∙◌, sym, inl, inr, Bool, true, false, not, ◌&&◌,
  Option, none, some, List, [], ◌∷◌, ◌++◌, Text, codes, arith, ◌==◌, if_true, if-cases, length,
  length-append,
}
use pmt_renovated.Helper.Error.{Outcome, done, threw, escaped, exited, undefined}
use pmt_renovated.Helper.Async.{Result}
use pmt_renovated.Helper.Sha256.{bytes, sha256_compare}
use pmt_renovated.PartitionMap.OpenPart.{Handle}
use pmt_renovated.PartitionMap.Partition.{Gpt, Partition, size, absolute_path}
use pmt_renovated.PartitionMap.Partition.Transfer.{dump, to_open}
use pmt_renovated.PartitionMap.Partition.Transfer.Dump.{Serves, size_of, dump_copies}
use pmt_renovated.PartitionMap.Table.{Disks}
use pmt_renovated.PartitionMap.Select.{TableType}
use pmt_renovated.Plugins.Work.{
  Flags, failure, success, buffer_for, in_directory, find, refused, gives, min_buffer_size,
}
use pmt_renovated.Plugins.Work.Laws.{
  before-eq-done, after-eq-done, gives_injective, failed_false, passed, failure-result,
  buffer_for_fits,
}
use pmt_renovated.Plugins.Backup.{
  Left, untouched, holds, Task, output_name, verified, after_dump, backup, run_found, run_async,
}

module _ {G : Gpt} {D : Disks G} (f : Flags G D) (t : Task) (name output : Text) where
  -- What holds of the partition and the output file when the task succeeds.
  pub record BackedUp (p : Partition G) (t_type : Option TableType) (l : Left) : Type 0 where
    pub allowed : refused f t_type ≡ false
    pub overwrites : (t.file_exists output && not f.force_process) ≡ false
    pub buf : ℕ
    pub agree : Bool
    pub out : List ℕ
    pub dumped :
        dump f.files (t.kernel name) (t.content_of name) buf t.fuel p ≡ some (done (agree, out))
    pub left : l ≡ holds out
    pub checked :
        t.verify ≡ true
        → (path : Text) × (absolute_path f.files p ≡ done path)
          × (sha256_compare t.digest (t.entry_at path) (bytes out) ≡ done true)

  verified_success :
      (p : Partition G) (out : List ℕ) {r : Result} {l : Left}
      → verified f t p out ≡ some (done (r, l))
      → r.result ≡ true
      → (l ≡ holds out)
        × (t.verify ≡ true
            → (path : Text) × (absolute_path f.files p ≡ done path)
              × (sha256_compare t.digest (t.entry_at path) (bytes out) ≡ done true))
  unfolding verified
  verified_success p out e h = elim (if-cases t.verify _ _ e) [
    | inr (unchecked, e1) ↦ (sym ((gives_injective e1).1), λ wanted. absurd cc)
    | inl (wanted, e1) ↦
        let (path, known, e2) = before-eq-done (absolute_path f.files p) _ e1 in
        let (same, compared, e3) =
          before-eq-done (sha256_compare t.digest (t.entry_at path) (bytes out)) _ e2 in
        let (equal, e4) = passed (not same) _ _ _ e3 h in
        (sym ((gives_injective e4).1), λ u. (path, known, compared ∙ ap done (twice same equal)))
  ]
    where
      twice : (b : Bool) → not b ≡ false → b ≡ true
      twice true h = refl
      twice false h = cc

  after_dump_success :
      (p : Partition G) (w : Option (Outcome (Bool × List ℕ))) {r : Result} {l : Left}
      → after_dump f t p w ≡ some (done (r, l))
      → r.result ≡ true
      → (agree : Bool) × (out : List ℕ) × (w ≡ some (done (agree, out)))
        × (verified f t p out ≡ some (done (r, l)))
  unfolding after_dump
  after_dump_success p none e h = cc
  after_dump_success p (some (done (agree, out))) e h = (agree, out, refl, e)
  after_dump_success p (some (threw x)) e h = failed_false _ e h
  after_dump_success p (some escaped) e h = cc
  after_dump_success p (some (exited n)) e h = cc
  after_dump_success p (some undefined) e h = cc

  backup_success :
      (p : Partition G) (t_type : Option TableType) {r : Result} {l : Left}
      → backup f t name output p t_type ≡ some (done (r, l))
      → r.result ≡ true
      → BackedUp p t_type l
  unfolding backup
  backup_success p t_type e h =
      let (total, known, e1) = before-eq-done (size p) _ e in
      let (some_there, e2) = passed (total == 0) _ _ _ e1 h in
      let (buf, buffered, e3) = before-eq-done (buffer_for t.buffer_size total) _ e2 in
      let (allowed, e4) = passed (refused f t_type) _ _ _ e3 h in
      let (overwrites, e5) = passed (t.file_exists output && not f.force_process) _ _ _ e4 h in
      let (agree, out, dumped, e6) = after_dump_success p _ e5 h in
      let (left, checked) = verified_success p out e6 h in
      record {
        allowed = allowed;
        overwrites = overwrites;
        buf = buf;
        agree = agree;
        out = out;
        dumped = dumped;
        left = left;
        checked = checked;
      }

  -- What holds of a task that succeeds: the name leads to a partition, a logical partition was not
  -- asked for in vain, the output file did not exist unless the process is forced, it holds what the
  -- dump of the partition has left in it, and if it was asked for, the comparison of the digests of
  -- the partition and the file has found them equal.
  pub run_async-BackedUp :
      {r : Result} {l : Left}
      → run_async f t name output ≡ some (done (r, l))
      → r.result ≡ true
      → (p : Partition G) × (t_type : Option TableType) × (find f name
          ≡ some (done (some p, t_type)))
        × BackedUp p t_type l
  unfolding run_async run_found
  run_async-BackedUp {r} {l} e h =
      let (found, searched, e1) = after-eq-done (find f name) _ e in behind found searched e1
    where
      behind :
          (found : Option (Partition G) × Option TableType)
          → find f name ≡ some (done found)
          → run_found f t name output found ≡ some (done (r, l))
          → (p : Partition G) × (t_type : Option TableType) × (find f name
              ≡ some (done (some p, t_type)))
            × BackedUp p t_type l
      behind (none, t_type) searched e1 = failed_false _ e1 h
      behind (some p, t_type) searched e1 = (p, t_type, searched, backup_success p t_type e1 h)

  -- Where the name leads to a partition that is not refused, the output file does not exist or the process
  -- is forced, no comparison of digests is asked for, the partition is open, its path is known and its size
  -- is that of its content and below `UINT64_MAX`, the output file can be created, the partition and the
  -- buffer size are at least 1,024 bytes, the kernel reads at least one byte at a time and writes what it
  -- is given, and the fuel is more than the size of the partition: the task succeeds and the output file
  -- holds the content of the partition.
  pub run_async_backs_up :
      (p : Partition G) (t_type : Option TableType) (h : Handle) (path : Text)
      → find f name ≡ some (done (some p, t_type))
      → refused f t_type ≡ false
      → (t.file_exists output && not f.force_process) ≡ false
      → t.verify ≡ false
      → to_open f.files p ≡ done path
      → p.op ≡ some h
      → h.size ≡ length (t.content_of name)
      → length (t.content_of name) < 2 ^ 64 - 1
      → (t.kernel name).can_create ≡ true
      → min_buffer_size ≤ t.buffer_size
      → min_buffer_size ≤ length (t.content_of name)
      → Serves (t.kernel name) (length (t.content_of name))
      → length (t.content_of name) < t.fuel
      → run_async f t name output
        ≡ gives (success (codes "Partition successfully backed up")) (holds (t.content_of name))
  unfolding run_async run_found backup
  run_async_backs_up p t_type h path found allowed overwrites unchecked opened e whole small create
        roomy large laws enough =
      let source = t.content_of name in
      let known : size p ≡ done (length source) = size_of p h e (rw whole small) ∙ ap done whole in
      let not_empty : (length source == 0) ≡ false = ground arith in
      let buffered = buffer_for_fits t.buffer_size (length source) roomy large in
      let dumped =
        dump_copies f.files (t.kernel name) source (min t.buffer_size (length source)) t.fuel p h
          path opened e whole small create (ground arith) (ground arith) laws enough in
      rw
        (
          found, known, not_empty, buffered, allowed, overwrites, dumped, after_dump, verified,
          unchecked,
        )
        refl

  -- An output file that exists stays as it was, and the task does not succeed, unless the process is
  -- forced.
  pub run_async_keeps :
      {r : Result} {l : Left}
      → t.file_exists output ≡ true
      → f.force_process ≡ false
      → run_async f t name output ≡ some (done (r, l))
      → (l ≡ untouched) × (r.result ≡ false)
  unfolding run_async run_found backup
  run_async_keeps {r} {l} exists unforced e =
      let (found, searched, e1) = after-eq-done (find f name) _ e in behind found e1
    where
      kept :
          (message : Text)
          → gives (failure message) untouched ≡ some (done (r, l))
          → (l ≡ untouched) × (r.result ≡ false)
      kept message k =
          let (same, left) = gives_injective k in
          (sym left, ap (λ (q : Result). q.result) (sym same) ∙ failure-result message)

      behind :
          (found : Option (Partition G) × Option TableType)
          → run_found f t name output found ≡ some (done (r, l))
          → (l ≡ untouched) × (r.result ≡ false)
      behind (none, t_type) e1 = kept _ e1
      behind (some p, t_type) e1 =
          let (total, known, e2) = before-eq-done (size p) _ e1 in
          elim (if-cases (total == 0) _ _ e2) [
            | inl (none_there, k) ↦ kept _ k
            | inr (some_there, e3) ↦
                let (buf, buffered, e4) = before-eq-done (buffer_for t.buffer_size total) _ e3 in
                elim (if-cases (refused f t_type) _ _ e4) [
                  | inl (no_logical, k) ↦ kept _ k
                  | inr (allowed, e5) ↦
                      let there : (t.file_exists output && not f.force_process) ≡ true =
                        rw (exists, unforced) refl in
                      kept _ (sym (if_true _ _ there) ∙ e5)
                ]
          ]

append_cancel : (xs ys zs : Text) → xs ++ ys ≡ xs ++ zs → ys ≡ zs
append_cancel [] ys zs e = e
append_cancel (x ∷ xs) ys zs e = append_cancel xs ys zs cc

append_right_cancel : (xs ys zs : Text) → length xs ≡ length ys → xs ++ zs ≡ ys ++ zs → xs ≡ ys
append_right_cancel [] [] zs same e = refl
append_right_cancel [] (y ∷ ys) zs same e = absurd (omega arith)
append_right_cancel (x ∷ xs) [] zs same e = absurd (omega arith)
append_right_cancel (x ∷ xs) (y ∷ ys) zs same e =
    let first : x ≡ y = cc in
    let rest : xs ++ zs ≡ ys ++ zs = cc in
    ap₂ (λ z zs. z ∷ zs) first (append_right_cancel xs ys zs (omega arith) rest)

in_directory_injective :
    (directory m n : Text) → in_directory directory m ≡ in_directory directory n → m ≡ n
unfolding in_directory
in_directory_injective [] m n e = e
in_directory_injective (c ∷ directory) m n e = append_cancel ((c ∷ directory) ++ codes "/") m n e

-- Two partitions with the same default output have the same name.
pub output_name_injective :
    (directory m n : Text) → output_name directory m none ≡ output_name directory n none → m ≡ n
unfolding output_name
output_name_injective directory m n e =
    let same : m ++ codes ".img" ≡ n ++ codes ".img" =
      in_directory_injective directory (m ++ codes ".img") (n ++ codes ".img") e in
    append_right_cancel m n (codes ".img")
      (omega
        (arith, length-append m (codes ".img"), length-append n (codes ".img"), ap length same))
      same
