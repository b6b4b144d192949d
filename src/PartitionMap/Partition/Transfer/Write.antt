-- ===== src/PartitionMap/Partition/Transfer/Write.antt =====
-- What `write` leaves on the device, and what it returns (partition.hpp).
use pmt_renovated.Base.{
  ℕ, zero, suc, ◌+◌, ◌-◌, ◌^◌, ◌≤◌, ◌<◌, min, ◌≡◌, refl, sym, ap, ap₂, ◌∙◌, inl, inr, ◌⊎◌, true,
  false, some, List, [], ◌∷◌, ◌++◌, Text, arith, ltb, ◌==◌, ==_refl, length, length-append,
  length-take, length-drop, take, drop, take-take, take_all, drop-drop, drop_all, Bool-cases,
  if_true, again, finish, iterate, iterate_total,
}
use pmt_renovated.Helper.Error.{Outcome, done}
use pmt_renovated.PartitionMap.OpenPart.{Handle, may_write}
use pmt_renovated.PartitionMap.Partition.{Gpt, Files, Partition, size}
use pmt_renovated.PartitionMap.Partition.Transfer.{
  got, Kernel, Writing, overwrite, put, zero_bytes, write_step, fill_step, to_open, write,
}
use pmt_renovated.PartitionMap.Partition.Transfer.Dump.{size_of}

-- A kernel that reads at least one byte of the image at a time, and writes what it is given within
-- the device.
pub record Accepts (k : Kernel) (size : ℕ) : Type 0 where
  pub reads :
      (round count : ℕ)
      → 0 < count
      → (n : ℕ) × (k.read_file round count ≡ got (suc n)) × (suc n ≤ count)
  pub writes :
      (round count offset : ℕ) → offset + count ≤ size → k.write_at round count offset ≡ got count

overwrite_none : (device : List ℕ) → overwrite 0 [] device ≡ device
unfolding overwrite
overwrite_none [] = refl
overwrite_none (x ∷ device) = refl

overwrite_start :
    (bytes device : List ℕ)
    → length bytes ≤ length device
    → overwrite 0 bytes device ≡ bytes ++ drop (length bytes) device
unfolding overwrite
overwrite_start [] device h = overwrite_none device
overwrite_start (b ∷ bytes) [] h = absurd (omega arith)
overwrite_start (b ∷ bytes) (x ∷ device) h =
    ap (λ d. b ∷ d) (overwrite_start bytes device (omega arith))

-- What is in front of the offset stays, and what is behind the bytes stays.
pub overwrite_lem :
    (front bytes device : List ℕ)
    → length bytes ≤ length device
    → overwrite (length front) bytes (front ++ device)
      ≡ (front ++ bytes) ++ drop (length bytes) device
unfolding overwrite
overwrite_lem [] bytes device h = overwrite_start bytes device h
overwrite_lem (f ∷ front) bytes device h = ap (λ d. f ∷ d) (overwrite_lem front bytes device h)

pub zeros_take : (m n : ℕ) → m ≤ n → take m (zero_bytes n) ≡ zero_bytes m
unfolding zero_bytes
zeros_take zero n h = refl
zeros_take (suc m) zero h = absurd (omega arith)
zeros_take (suc m) (suc n) h = ap (λ z. 0 ∷ z) (zeros_take m n (omega arith))

pub length-zeros : (n : ℕ) → length (zero_bytes n) ≡ n
unfolding zero_bytes
length-zeros zero = refl
length-zeros (suc n) = ap suc (length-zeros n)

pub zeros-append :
    (front : List ℕ) (m n : ℕ)
    → (front ++ zero_bytes m) ++ zero_bytes n ≡ front ++ zero_bytes (m + n)
unfolding zero_bytes
zeros-append [] zero n = let e : 0 + n ≡ n = omega arith in rw e refl
zeros-append [] (suc m) n =
    let e : suc m + n ≡ suc (m + n) = omega arith in rw e (ap (λ z. 0 ∷ z) (zeros-append [] m n))
zeros-append (f ∷ front) m n = ap (λ z. f ∷ z) (zeros-append front m n)

pub append_nil : (xs : List ℕ) → xs ++ [] ≡ xs
append_nil [] = refl
append_nil (x ∷ xs) = ap (λ ys. x ∷ ys) (append_nil xs)

pub predecessor : (n : ℕ) → 0 < n → (c : ℕ) × (n ≡ suc c)
predecessor zero h = absurd (omega arith)
predecessor (suc c) h = (c, refl)

none_yet : (xs : List ℕ) → xs ++ zero_bytes 0 ≡ xs
unfolding zero_bytes
none_yet xs = append_nil xs

-- A chunk of the image, written where it belongs.
written :
    (m n : ℕ) (image device : List ℕ)
    → m + n ≤ length image
    → length image ≤ length device
    → overwrite m (take n (drop m image)) (take m image ++ drop m device)
      ≡ take (m + n) image ++ drop (m + n) device
written m n image device inside fits =
    let front : length (take m image) ≡ m = length-take m image (omega arith) in
    let chunk : length (take n (drop m image)) ≡ n =
      length-take n (drop m image) (omega (arith, length-drop m image)) in
    let wrote =
      overwrite_lem (take m image) (take n (drop m image)) (drop m device)
        (omega (arith, chunk, length-drop m device)) in
    ap (λ i. overwrite i (take n (drop m image)) (take m image ++ drop m device)) (sym front)
    ∙ wrote
    ∙ ap₂ ◌++◌ (take-take m n image) (ap (λ c. drop c (drop m device)) chunk ∙ drop-drop m n device)

-- Zeros, written behind the image and the zeros that are there.
filled :
    (j n : ℕ) (image device : List ℕ)
    → length image + j + n ≤ length device
    → overwrite
        (length image + j)
        (zero_bytes n)
        ((image ++ zero_bytes j) ++ drop (length image + j) device)
      ≡ (image ++ zero_bytes (j + n)) ++ drop (length image + j + n) device
filled j n image device fits =
    let front : length (image ++ zero_bytes j) ≡ length image + j =
      length-append image (zero_bytes j) ∙ ap (λ z. length image + z) (length-zeros j) in
    let rest = drop (length image + j) device in
    let wrote =
      overwrite_lem (image ++ zero_bytes j) (zero_bytes n) rest
        (omega (arith, length-zeros n, length-drop (length image + j) device)) in
    ap (λ i. overwrite i (zero_bytes n) ((image ++ zero_bytes j) ++ rest)) (sym front)
    ∙ wrote
    ∙ ap₂ ◌++◌ (zeros-append image j n)
        (ap (λ c. drop c rest) (length-zeros n) ∙ drop-drop (length image + j) n device)

module _ (k : Kernel) (image device : List ℕ) (buffer : ℕ) (laws : Accepts k (length device))
    (room : 0 < buffer) (fits : length image ≤ length device) where
  Written : Writing → Type 0
  Written s = (s.so_far ≤ length image) × (s.device ≡ take s.so_far image ++ drop s.so_far device)

  Whole : Outcome Writing → Type 0
  Whole r =
      (s : Writing) × (r ≡ done s)
      × (s.so_far ≡ length image)
      × (s.device ≡ image ++ drop (length image) device)

  write_round :
      (s : Writing)
      → Written s
      → ((t : Writing) × (write_step k true image (length image) buffer s ≡ again t)
          × Written t
          × (length image - t.so_far < length image - s.so_far))
        ⊎ ((r : Outcome Writing) × (write_step k true image (length image) buffer s ≡ finish r)
            × Whole r)
  unfolding write_step put Written Whole
  write_round s (le, same) = elim (Bool-cases (ltb s.so_far (length image))) [
    | inl more ↦
        let count = min buffer (length image - s.so_far) in
        let (n, answer, within) = laws.reads s.round count (ground arith) in
        let bytes = take (suc n) (drop s.so_far image) in
        let chunk : length bytes ≡ suc n =
          length-take (suc n) (drop s.so_far image) (ground (arith, length-drop s.so_far image)) in
        let accepted : k.write_at s.round (suc n) s.so_far ≡ got (suc n) =
          laws.writes s.round (suc n) s.so_far (ground arith) in
        inl (
          record {
            round = s.round + 1;
            so_far = s.so_far + suc n;
            device = overwrite s.so_far bytes s.device;
          },
          rw (more, answer, chunk, accepted, ==_refl (suc n)) refl,
          (
            ground arith,
            ap (λ d. overwrite s.so_far bytes d) same
                ∙ written s.so_far (suc n) image device (ground arith) fits,
          ),
          ground arith,
        )
    | inr over ↦
        let all : s.so_far ≡ length image = ground arith in
        inr (
          done s,
          rw over refl,
          (
            s,
            refl,
            all,
            same
                ∙ ap (λ n. take n image ++ drop n device) all
                ∙ ap (λ i. i ++ drop (length image) device) (take_all image),
          ),
        )
  ]

  Filled : Writing → Type 0
  Filled s =
      (j : ℕ) × (s.so_far ≡ length image + j)
      × (s.so_far ≤ length device)
      × (s.device ≡ (image ++ zero_bytes j) ++ drop (length image + j) device)

  Full : Outcome Writing → Type 0
  Full r =
      (s : Writing) × (r ≡ done s)
      × (s.so_far ≡ length device)
      × (s.device ≡ image ++ zero_bytes (length device - length image))

  fill_round :
      (s : Writing)
      → Filled s
      → ((t : Writing) × (fill_step k true (length device) buffer s ≡ again t)
          × Filled t
          × (length device - t.so_far < length device - s.so_far))
        ⊎ ((r : Outcome Writing) × (fill_step k true (length device) buffer s ≡ finish r) × Full r)
  unfolding fill_step put Filled Full
  fill_round s (j, at, le, same) = elim (Bool-cases (ltb s.so_far (length device))) [
    | inl more ↦
        let count = min buffer (length device - s.so_far) in
        let (c, some_bytes) = predecessor count (ground arith) in
        let accepted : k.write_at s.round count s.so_far ≡ got (suc c) =
          laws.writes s.round count s.so_far (ground arith) ∙ ap got some_bytes in
        let bytes : take (suc c) (zero_bytes count) ≡ zero_bytes (suc c) =
          zeros_take (suc c) count (omega arith) in
        inl (
          record {
            round = s.round + 1;
            so_far = s.so_far + suc c;
            device = overwrite s.so_far (take (suc c) (zero_bytes count)) s.device;
          },
          rw (more, length-zeros count, accepted) refl,
          (
            j + suc c,
            omega arith,
            ground arith,
            ap (λ z. overwrite s.so_far z s.device) bytes
                ∙ ap₂ (λ i d. overwrite i (zero_bytes (suc c)) d) at same
                ∙ filled j (suc c) image device (ground arith)
                ∙ ap (λ i. (image ++ zero_bytes (j + suc c)) ++ drop i device)
                    (add_assoc (length image) j (suc c)),
          ),
          ground arith,
        )
    | inr over ↦
        let all : s.so_far ≡ length device = ground arith in
        let zeros : j ≡ length device - length image = omega arith in
        inr (done s, rw over refl, (s, refl, all, same ∙ full j (sym at ∙ all) zeros))
  ]
    where
      add_assoc : (a b c : ℕ) → a + b + c ≡ a + (b + c)
      add_assoc a b c = omega arith

      full :
          (j : ℕ)
          → length image + j ≡ length device
          → j ≡ length device - length image
          → (image ++ zero_bytes j) ++ drop (length image + j) device
            ≡ image ++ zero_bytes (length device - length image)
      full j e z =
          ap (λ n. (image ++ zero_bytes j) ++ drop n device) e
          ∙ ap (λ d. (image ++ zero_bytes j) ++ d) (drop_all device)
          ∙ append_nil (image ++ zero_bytes j)
          ∙ ap (λ n. image ++ zero_bytes n) z

  write_loop :
      (fuel : ℕ)
      → length image < fuel
      → (s : Writing) × (iterate
            (write_step k true image (length image) buffer)
            fuel
            record { round = 0; so_far = 0; device = device }
          ≡ some (done s))
        × (s.so_far ≡ length image)
        × (s.device ≡ image ++ drop (length image) device)
  unfolding Written Whole
  write_loop fuel enough =
      let (r, ran, (s, ended, at, same)) =
        iterate_total (write_step k true image (length image) buffer) Written
          (λ s. length image - s.so_far) Whole write_round fuel
          record { round = 0; so_far = 0; device = device } (omega arith) (omega arith, refl) in
      (s, ran ∙ ap some ended, at, same)

  fill_loop :
      (fuel : ℕ) (s : Writing)
      → length device < fuel
      → s.so_far ≡ length image
      → s.device ≡ image ++ drop (length image) device
      → (t : Writing) × (iterate (fill_step k true (length device) buffer) fuel s ≡ some (done t))
        × (t.so_far ≡ length device)
        × (t.device ≡ image ++ zero_bytes (length device - length image))
  unfolding Filled Full
  fill_loop fuel s enough begins holds =
      let plus_zero : length image + 0 ≡ length image = omega arith in
      let start : s.device ≡ (image ++ zero_bytes 0) ++ drop (length image + 0) device =
        holds ∙ ap₂ (λ i n. i ++ drop n device) (sym (none_yet image)) (sym plus_zero) in
      let (r, ran, (t, ended, end, content)) =
        iterate_total (fill_step k true (length device) buffer) Filled
          (λ s. length device - s.so_far) Full fill_round fuel s (omega arith)
          (0, omega arith, omega arith, start) in
      (t, ran ∙ ap some ended, end, content)

-- For an open partition whose path is known, which may be written, and whose size is below
-- `UINT64_MAX`, an image that can be opened and is not larger, a buffer and a partition that are not
-- empty, a kernel that reads at least one byte at a time and writes what it is given, and fuel in each
-- of the two loops for more rounds than the partition has bytes, `write` ends; the partition then
-- holds the image and zeros behind it, and the result is true exactly when the image is as large as
-- the partition.
pub write_fills :
    {G : Gpt} (files : Files) (k : Kernel) (image device : List ℕ) (bufsize fuel : ℕ)
    (p : Partition G) (h : Handle) (t : Text)
    → to_open files p ≡ done t
    → p.op ≡ some h
    → may_write p.op ≡ true
    → h.size ≡ length device
    → length device < 2 ^ 64 - 1
    → k.file_size ≡ some (length image)
    → k.can_open ≡ true
    → length image ≤ length device
    → 0 < bufsize
    → 0 < length device
    → Accepts k (length device)
    → length device < fuel
    → write files k image device bufsize fuel p
      ≡ some
          (done (length device == length image, image ++ zero_bytes (length device - length image)))
unfolding write
write_fills files k image device bufsize fuel p h t opened e writable whole small sized open_ fits
      room some_bytes laws enough =
    let known : size p ≡ done (length device) = size_of p h e (rw whole small) ∙ ap done whole in
    let (s, wrote, at, same) =
      write_loop k image device (min bufsize (length device)) laws (ground arith) fits fuel
        (omega arith) in
    let (f, filled_up, end, content) =
      fill_loop k image device (min bufsize (length device)) laws (ground arith) fits fuel s enough
        at same in
    let not_larger : ltb (length device) (length image) ≡ false = ground arith in
    rw (opened, sized, known, not_larger)
      (if_true _ _ open_ ∙ rw (writable, wrote, filled_up, end, content) refl)
