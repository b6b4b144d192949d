-- ===== src/PartitionMap/Partition/Transfer/Dump.antt =====
-- What `dump` leaves in the output file, and when it does not end (partition.hpp).
use pmt_renovated.Base.{
  ℕ, suc, ◌+◌, ◌-◌, ◌%◌, ◌^◌, ◌≤◌, ◌<◌, min, ◌≡◌, refl, ap, ap₂, ◌∙◌, inl, inr, ◌⊎◌, Bool, true,
  false, some, List, [], ◌++◌, Text, arith, ltb, ◌==◌, ==_refl, length, take, drop, take-take,
  take_all, Bool-cases, if_true, again, finish, iterate, iterate_total,
}
use pmt_renovated.Helper.Error.{Outcome, done}
use pmt_renovated.PartitionMap.OpenPart.{Handle, openpart_get_size, uint64_max}
use pmt_renovated.PartitionMap.Partition.{Gpt, Files, Partition, size}
use pmt_renovated.PartitionMap.Partition.Transfer.{
  got, Kernel, Dumping, dump_write, dump_step, to_open, dump,
}

-- A kernel that reads at least one byte of those asked for, within the device, and writes what it is
-- given to write.
pub record Serves (k : Kernel) (size : ℕ) : Type 0 where
  pub reads :
      (round count offset : ℕ)
      → 0 < count
      → offset + count ≤ size
      → (n : ℕ) × (k.read_at round count offset ≡ got (suc n)) × (suc n ≤ count)
  pub writes : (round count : ℕ) → k.write_file round count ≡ got count

pub size_of :
    {G : Gpt} (p : Partition G) (h : Handle)
    → p.op ≡ some h
    → h.size < 2 ^ 64 - 1
    → size p ≡ done h.size
unfolding size openpart_get_size
size_of p h e small =
    let other : (h.size == uint64_max) ≡ false = ground arith in rw (e, other) refl

module _ (k : Kernel) (source : List ℕ) (buffer : ℕ) (laws : Serves k (length source))
    (room : 0 < buffer) (small : length source < 2 ^ 64 - 1) where
  Copied : Dumping → Type 0
  Copied s = (s.so_far ≤ length source) × (s.output ≡ take s.so_far source)

  dump_round :
      (s : Dumping)
      → Copied s
      → ((t : Dumping) × (dump_step k source buffer (length source) s ≡ again t)
          × Copied t
          × (length source - t.so_far < length source - s.so_far))
        ⊎ ((r : Outcome (Bool × List ℕ)) × (dump_step k source buffer (length source) s ≡ finish r)
            × (r ≡ done (true, source)))
  unfolding dump_step dump_write Copied
  dump_round s (le, same) = elim (Bool-cases (ltb s.so_far (length source))) [
    | inl more ↦
        let count = min buffer (length source - s.so_far) in
        let (n, answer, within) = laws.reads s.round count s.so_far (ground arith) (ground arith) in
        let stays : (s.so_far + suc n) % 2 ^ 64 ≡ s.so_far + suc n = ground arith in
        inl (
          record {
            round = s.round + 1;
            so_far = s.so_far + suc n;
            output = s.output ++ take (suc n) (drop s.so_far source);
          },
          rw (more, answer, dump_write, laws.writes s.round (suc n), ==_refl (suc n), stays) refl,
          (
            ground arith,
            ap (λ o. o ++ take (suc n) (drop s.so_far source)) same
                ∙ take-take s.so_far (suc n) source,
          ),
          ground arith,
        )
    | inr over ↦
        let all : s.so_far ≡ length source = ground arith in
        inr (
          done (true, source),
          rw over (
              ap finish (
                ap done (
                  ap₂ (λ b o. (b, o)) (rw all (==_refl (length source)))
                    (same ∙ ap (λ n. take n source) all ∙ take_all source)))),
          refl,
        )
  ]

  dump_loop_copies :
      (fuel : ℕ)
      → length source < fuel
      → iterate
          (dump_step k source buffer (length source))
          fuel
          record { round = 0; so_far = 0; output = [] }
        ≡ some (done (true, source))
  unfolding Copied
  dump_loop_copies fuel enough =
      let (r, ran, right) =
        iterate_total (dump_step k source buffer (length source)) Copied
          (λ s. length source - s.so_far) (λ r. r ≡ done (true, source)) dump_round fuel
          record { round = 0; so_far = 0; output = [] } (omega arith) (omega arith, refl) in
      ran ∙ ap some right

-- For an open partition that is not empty, whose path is known and whose size is below `UINT64_MAX`,
-- an output file that can be created, a buffer that is not empty, a kernel that reads at least one
-- byte at a time and writes what it is given, and fuel for more rounds than there are bytes, `dump`
-- ends, returns true, and leaves in the output file exactly the bytes of the partition.
pub dump_copies :
    {G : Gpt} (files : Files) (k : Kernel) (source : List ℕ) (bufsize fuel : ℕ) (p : Partition G)
    (h : Handle) (t : Text)
    → to_open files p ≡ done t
    → p.op ≡ some h
    → h.size ≡ length source
    → length source < 2 ^ 64 - 1
    → k.can_create ≡ true
    → 0 < bufsize
    → 0 < length source
    → Serves k (length source)
    → length source < fuel
    → dump files k source bufsize fuel p ≡ some (done (true, source))
unfolding dump
dump_copies files k source bufsize fuel p h t opened e whole small create room some_bytes laws
      enough =
    let known : size p ≡ done (length source) = size_of p h e (rw whole small) ∙ ap done whole in
    rw (opened, e, known)
      (if_true _ _ create
        ∙ dump_loop_copies k source (min bufsize (length source)) laws (ground arith) small fuel
            enough)
