-- ===== src/Plugins/Erase/Laws.antt =====
-- What the loop of the erase plugin leaves on a partition (src/plugins/ErasePlugin.cpp).
use pmt_renovated.Base.{
  ℕ, zero, suc, ◌+◌, ◌-◌, ◌≤◌, ◌<◌, min, ◌≡◌, refl, ap, ap₂, ◌∙◌, sym, ◌⊎◌, inl, inr, true, false,
  some, List, [], ◌++◌, Text, codes, arith, ltb, Bool-cases, length, take, drop, length-drop,
  drop-drop, drop_all, again, finish, iterate, iterate_total, iterate_sound, Option-cases,
}
use pmt_renovated.Helper.Error.{done}
use pmt_renovated.Helper.Error.Laws.{done_injective}
use pmt_renovated.PartitionMap.Partition.Transfer.{
  Kernel, Answer, got, failed, overwrite, zero_bytes,
}
use pmt_renovated.PartitionMap.Partition.Transfer.Write.{
  overwrite_lem, zeros_take, length-zeros, zeros-append, append_nil,
}
use pmt_renovated.Plugins.Work.{failure, success}
use pmt_renovated.Plugins.Work.Laws.{some_injective}
use pmt_renovated.Plugins.Erase.{Erasing, Ending, erase_step, erase_loop, ended}

-- A kernel that writes no more than it is given.
abbrev pub IsBounded : Kernel → Type 0
IsBounded k = (round count n : ℕ) → k.write_file round count ≡ got n → n ≤ count

-- A kernel that writes at least one byte of those that it is given.
abbrev pub Progresses : Kernel → Type 0
Progresses k =
    (round count : ℕ)
    → 0 < count
    → (n : ℕ) × (k.write_file round count ≡ got (suc n)) × (suc n ≤ count)

-- Zeros that are written behind the zeros that are there.
zeroed :
    (j n : ℕ) (content : List ℕ)
    → j + n ≤ length content
    → overwrite j (zero_bytes n) (zero_bytes j ++ drop j content)
      ≡ zero_bytes (j + n) ++ drop (j + n) content
zeroed j n content fits =
    ap (λ i. overwrite i (zero_bytes n) (zero_bytes j ++ drop j content)) (sym (length-zeros j))
    ∙ overwrite_lem (zero_bytes j) (zero_bytes n) (drop j content)
        (omega (arith, length-zeros n, length-drop j content))
    ∙ ap₂ ◌++◌ (zeros-append [] j n)
        (ap (λ c. drop c (drop j content)) (length-zeros n) ∙ drop-drop j n content)

Answer-cases : (a : Answer) → (a ≡ failed) ⊎ ((a ≡ got zero) ⊎ ((n : ℕ) × (a ≡ got (suc n))))
Answer-cases failed = inl refl
Answer-cases (got zero) = inr (inl refl)
Answer-cases (got (suc n)) = inr (inr (n, refl))

abbrev pub erased_message : Text
erased_message = codes "Successfully wrote zero bytes to partition"

-- The first bytes are zero and the others as they were; all are zero when the task succeeds.
abbrev pub Leaves : List ℕ → Ending → Type 0
Leaves content (r, device) =
    (j : ℕ) × (j ≤ length content)
    × (device ≡ zero_bytes j ++ drop j content)
    × (r.result ≡ true → device ≡ zero_bytes (length content))

module _ (k : Kernel) (buf : ℕ) (content : List ℕ) where
  Erased : Erasing → Type 0
  Erased s =
      (s.bytes_written ≤ length content)
      × (s.device ≡ zero_bytes s.bytes_written ++ drop s.bytes_written content)

  wrote :
      (s : Erasing) (n : ℕ)
      → Erased s
      → ltb s.bytes_written (length content) ≡ true
      → k.write_file s.round (min buf (length content - s.bytes_written)) ≡ got (suc n)
      → suc n ≤ min buf (length content - s.bytes_written)
      → (t : Erasing) × (erase_step k buf (length content) s ≡ again t)
        × Erased t
        × (length content - t.bytes_written < length content - s.bytes_written)
  unfolding erase_step Erased
  wrote s n (le, same) more answer within =
      let count = min buf (length content - s.bytes_written) in
      (
        record {
          round = s.round + 1;
          bytes_written = s.bytes_written + suc n;
          device = overwrite s.bytes_written (take (suc n) (zero_bytes count)) s.device;
        },
        rw (more, answer) refl,
        (
          ground arith,
          ap₂ (λ z d. overwrite s.bytes_written z d) (zeros_take (suc n) count within) same
              ∙ zeroed s.bytes_written (suc n) content (ground arith),
        ),
        ground arith,
      )

  finished :
      (s : Erasing)
      → Erased s
      → ltb s.bytes_written (length content) ≡ false
      → (r : Ending) × (erase_step k buf (length content) s ≡ finish r)
        × Leaves content r
        × (r ≡ (success erased_message, zero_bytes (length content)))
  unfolding erase_step Erased
  finished s (le, same) over =
      let all : s.bytes_written ≡ length content = ground arith in
      let zeros : s.device ≡ zero_bytes (length content) =
        same
        ∙ ap (λ n. zero_bytes n ++ drop n content) all
        ∙ ap (λ d. zero_bytes (length content) ++ d) (drop_all content)
        ∙ append_nil _ in
      (
        (success erased_message, s.device),
        rw over refl,
        (s.bytes_written, le, same, λ h. zeros),
        ap (λ d. (success erased_message, d)) zeros,
      )

  stopped : (s : Erasing) (message : Text) → Erased s → Leaves content (failure message, s.device)
  unfolding Erased failure
  stopped s message (le, same) = (s.bytes_written, le, same, λ h. absurd cc)

  erase_round :
      IsBounded k
      → (s : Erasing) → Erased s
      → ((t : Erasing) × (erase_step k buf (length content) s ≡ again t) × Erased t)
        ⊎ ((r : Ending) × (erase_step k buf (length content) s ≡ finish r) × Leaves content r)
  unfolding erase_step
  erase_round bounded s inv = elim (Bool-cases (ltb s.bytes_written (length content))) [
    | inr over ↦ let (r, e, leaves, which) = finished s inv over in inr (r, e, leaves)
    | inl more ↦
        let count = min buf (length content - s.bytes_written) in
        elim (Answer-cases (k.write_file s.round count)) [
          | inl refused ↦ inr (
            (failure (codes "Can't write zero bytes to partition"), s.device),
            rw (more, refused) refl,
            stopped s (codes "Can't write zero bytes to partition") inv,
          )
          | inr (inl nothing) ↦ inr (
            (failure (codes "Write operation returned 0 bytes for partition"), s.device),
            rw (more, nothing) refl,
            stopped s (codes "Write operation returned 0 bytes for partition") inv,
          )
          | inr (inr (n, answer)) ↦
              let (t, e, kept, less) =
                wrote s n inv more answer (bounded s.round count (suc n) answer) in
              inl (t, e, kept)
        ]
  ]

  begins : Erased record { round = 0; bytes_written = 0; device = content }
  unfolding Erased zero_bytes
  begins = (omega arith, refl)

  -- Whatever the kernel answers, as long as it writes no more than it is given: when the loop ends,
  -- the first bytes of the partition are zero and the others as they were, and all are zero if it ends
  -- with success.
  pub erase_loop-Leaves :
      (fuel : ℕ) {r : Ending}
      → IsBounded k
      → erase_loop k buf (length content) fuel content ≡ some (done r)
      → Leaves content r
  unfolding erase_loop
  erase_loop-Leaves fuel {r} bounded e =
      let loop =
        iterate (erase_step k buf (length content)) fuel
          record { round = 0; bytes_written = 0; device = content } in
      elim (Option-cases loop) [
        | inl running ↦ absurd (cc (ap ended (sym running) ∙ e))
        | inr (end, ran) ↦
            let same : end ≡ r = done_injective (some_injective (ap ended (sym ran) ∙ e)) in
            iterate_sound (erase_step k buf (length content)) Erased (Leaves content)
              (erase_round bounded) fuel _ begins (ran ∙ ap some same)
      ]

  -- Where each write takes at least one byte and the buffer has room, the loop ends with success, and
  -- the partition is zero.
  pub erase_loop_zeros :
      (fuel : ℕ)
      → Progresses k
      → 0 < buf
      → length content < fuel
      → erase_loop k buf (length content) fuel content
        ≡ some (done (success erased_message, zero_bytes (length content)))
  unfolding erase_loop
  erase_loop_zeros fuel progress room enough =
      let (r, ran, right) =
        iterate_total (erase_step k buf (length content)) Erased
          (λ s. length content - s.bytes_written)
          (λ r. r ≡ (success erased_message, zero_bytes (length content))) round fuel
          record { round = 0; bytes_written = 0; device = content } (omega arith) begins in
      ap ended (ran ∙ ap some right)
    where
      round :
          (s : Erasing)
          → Erased s
          → ((t : Erasing) × (erase_step k buf (length content) s ≡ again t)
              × Erased t
              × (length content - t.bytes_written < length content - s.bytes_written))
            ⊎ ((r : Ending) × (erase_step k buf (length content) s ≡ finish r)
                × (r ≡ (success erased_message, zero_bytes (length content))))
      round s inv = elim (Bool-cases (ltb s.bytes_written (length content))) [
        | inr over ↦ let (r, e, leaves, which) = finished s inv over in inr (r, e, which)
        | inl more ↦
            let count = min buf (length content - s.bytes_written) in
            let (n, answer, within) = progress s.round count (ground arith) in
            inl (wrote s n inv more answer within)
      ]
