-- ===== src/PartitionMap/Partition/Laws.antt =====
-- Copies of a partition object, its path, and transfers that fail (partition.hpp).
use pmt_renovated.Base.{
  ℕ, zero, suc, ◌+◌, ◌-◌, ◌%◌, ◌^◌, ◌<◌, min, ◌≡◌, ◌≢◌, refl, sym, ap, ◌∙◌, inl, inr, Bool, true,
  false, Option, none, some, List, [], ◌∷◌, ◌++◌, Text, codes, arith, ltb, lt→ltb, if◌then◌else◌,
  if_true, if-cases, length, finish, iterate, Option-cases,
}
use pmt_renovated.Helper.Error.{Outcome, done, threw, escaped, exited, undefined, Error, new_error}
use pmt_renovated.Helper.CmdLine.Number.{is_digit, to_string, value}
use pmt_renovated.Helper.CmdLine.Number.Laws.{value-to_string}
use pmt_renovated.PartitionMap.OpenPart.{
  Handle, Devices, openpart_open, may_write, op_rdwr, op_wronly,
}
use pmt_renovated.PartitionMap.Partition.{
  Gpt, Files, Partition, copy_assign, copy_construct, opened, reopen_path, path, last_char, size,
}
use pmt_renovated.PartitionMap.Partition.Transfer.{
  Answer, got, failed, Kernel, Writing, dump_step, dump_write, put, write_step, before, after,
  to_open, dump, write,
}
use pmt_renovated.PartitionMap.Partition.Transfer.Dump.{size_of}

outcome_text : {s t : Text} → done s ≡ done t → s ≡ t
outcome_text e = ap text_of e
  where
    text_of : Outcome Text → Text
    text_of (done s) = s
    text_of m = []

abbrev op_of : {G : Gpt} → Outcome (Partition G) → Option Handle
op_of (done p) = p.op
op_of m = none

opened_flags :
    {G : Gpt} (devices : Devices) (at : Text) (flags : ℕ) (p q : Partition G)
    → opened devices at flags p ≡ done q
    → (h : Handle) × (q.op ≡ some h) × (h.flags ≡ flags) × (h.device ≡ at)
unfolding opened openpart_open
opened_flags devices at flags p q e = elim (Option-cases (devices at)) [
  | inl closed ↦ absurd (cc (rw (opened, openpart_open, closed) at e))
  | inr ((size, sector), reported) ↦ (
    record { device = at; flags = flags; size = size; sector_size = sector },
    sym (ap op_of (rw (opened, openpart_open, reported) at e)),
    refl,
    refl,
  )
]

before-done {ℓ κ} :
    {A : Type ℓ} {B : Type κ} (m : Outcome A) (f : A → Option (Outcome B)) {b : B}
    → before m f ≡ some (done b)
    → (a : A) × (m ≡ done a) × (f a ≡ some (done b))
before-done (done a) f h = (a, refl, h)
before-done (threw e) f h = cc
before-done escaped f h = cc
before-done (exited n) f h = cc
before-done undefined f h = cc

after-done {ℓ κ} :
    {A : Type ℓ} {B : Type κ} (o : Option (Outcome A)) (f : A → Option (Outcome B)) {b : B}
    → after o f ≡ some (done b)
    → (a : A) × (o ≡ some (done a)) × (f a ≡ some (done b))
after-done none f h = cc
after-done (some m) f h = let (a, e, rest) = before-done m f h in (a, ap some e, rest)

-- Without the right to write, the first round of the copying loop fails.
module _ (k : Kernel) (image device : List ℕ) (buffer : ℕ) (some_bytes : 0 < length image) where
  abbrev at_start : Writing
  at_start = record { round = 0; so_far = 0; device = device }

  refusal :
      (a : Answer)
      → k.read_file 0 (min buffer (length image - 0)) ≡ a
      → (e : Error) × (write_step k false image (length image) buffer at_start ≡ finish (threw e))
  unfolding write_step put
  refusal failed answer = (
    new_error (codes "Cannot read"),
    if_true _ _ (lt→ltb 0 (length image) some_bytes) ∙ rw answer refl,
  )
  refusal (got zero) answer = (
    new_error (codes "Cannot read"),
    if_true _ _ (lt→ltb 0 (length image) some_bytes) ∙ rw answer refl,
  )
  refusal (got (suc n)) answer = (
    new_error (codes "Cannot write"),
    if_true _ _ (lt→ltb 0 (length image) some_bytes) ∙ rw answer refl,
  )

  refused :
      (fuel : ℕ) (s : Writing)
      → iterate (write_step k false image (length image) buffer) fuel at_start ≢ some (done s)
  unfolding iterate
  refused zero s e = cc
  refused (suc fuel) s e =
      let (err, stopped) = refusal (k.read_file 0 (min buffer (length image - 0))) refl in
      cc (rw (iterate, stopped) at e)

append_cancel : (xs : Text) {ys zs : Text} → xs ++ ys ≡ xs ++ zs → ys ≡ zs
append_cancel [] e = e
append_cancel (x ∷ xs) e = append_cancel xs (ap tail e)
  where
    tail : Text → Text
    tail [] = []
    tail (c ∷ s) = s

path_normal :
    {G : Gpt} (p : Partition G) (c : ℕ)
    → last_char p.local_table_path ≡ some c
    → p.is_logical ≡ false
    → path p
      ≡ done (
          (p.local_table_path ++ (if is_digit c then codes "p" else []))
          ++ to_string ((p.local_index + 1) % 2 ^ 32))
unfolding path
path_normal p c last normal = rw (path, last, normal) refl

-- Two normal partitions of the same table, with indices below `UINT32_MAX`, that have the same path
-- have the same index.
pub path_injective :
    {G : Gpt} (p q : Partition G) (t : Text)
    → p.is_logical ≡ false
    → q.is_logical ≡ false
    → p.local_table_path ≡ q.local_table_path
    → p.local_index < 2 ^ 32 - 1
    → q.local_index < 2 ^ 32 - 1
    → path p ≡ done t
    → path q ≡ done t
    → p.local_index ≡ q.local_index
unfolding path
path_injective p q t normal_p normal_q same small_p small_q at_p at_q =
    elim (Option-cases (last_char q.local_table_path)) [
      | inl nothing ↦ absurd (cc (rw (path, nothing) at at_q))
      | inr (c, last) ↦
          let suffix = if is_digit c then codes "p" else [] in
          let number_p = to_string ((p.local_index + 1) % 2 ^ 32) in
          let number_q = to_string ((q.local_index + 1) % 2 ^ 32) in
          let front = q.local_table_path ++ suffix in
          let own = sym (path_normal p c (ap last_char same ∙ last) normal_p) ∙ at_p in
          let other = sym (path_normal q c last normal_q) ∙ at_q in
          let texts : front ++ number_p ≡ front ++ number_q =
            ap (λ a. (a ++ suffix) ++ number_p) (sym same) ∙ outcome_text (own ∙ sym other) in
          let numbers =
            sym (value-to_string ((p.local_index + 1) % 2 ^ 32))
            ∙ ap (value 0) (append_cancel front texts)
            ∙ value-to_string ((q.local_index + 1) % 2 ^ 32) in
          omega arith
    ]

copy_assign_flags :
    {G : Gpt} (devices : Devices) (self other q : Partition G)
    → copy_assign devices self other ≡ done q
    → may_write q.op ≡ false
unfolding copy_assign may_write
copy_assign_flags devices self other q e = elim (Option-cases other.op) [
  | inl closed ↦ rw (sym (ap op_of (rw (copy_assign, closed) at e))) refl
  | inr (h, open_) ↦
      let (g, kept, flags, at) =
        opened_flags devices (reopen_path other h) op_wronly (record other { op = none }) q
          (rw (copy_assign, open_) at e) in
      rw (kept, flags) refl
]

-- A partition object that was assigned from another one cannot write: whatever the kernel answers, no
-- `write` of an image that is not empty to it returns. It does not end within the fuel, or it throws.
pub copy_assign-write :
    {G : Gpt} (devices : Devices) (self other q : Partition G) (files : Files) (k : Kernel)
    (image device : List ℕ) (bufsize fuel : ℕ) (result : Bool × List ℕ)
    → copy_assign devices self other ≡ done q
    → k.file_size ≡ some (length image)
    → 0 < length image
    → write files k image device bufsize fuel q ≢ some (done result)
unfolding write
copy_assign-write devices self other q files k image device bufsize fuel result assigned sized
      some_bytes ran =
    let denied = copy_assign_flags devices self other q assigned in
    let (t, known, rest) = before-done (to_open files q) _ ran in
    let (total, measured, more) = before-done (size q) _ (rw sized at rest) in
    elim (if-cases (ltb total (length image)) _ _ more) [
      | inl (large, stopped) ↦ cc
      | inr (fits, go) ↦ elim (if-cases k.can_open _ _ go) [
        | inr (closed, stopped) ↦ cc
        | inl (open_, loops) ↦
            let (s, wrote, filling) = after-done _ _ (rw denied at loops) in
            refused k image device (min bufsize total) some_bytes fuel s wrote
      ]
    ]

-- A partition object that was constructed from an open one is open on the path of the original, and
-- may be written.
pub copy_construct-may_write :
    {G : Gpt} (devices : Devices) (other q : Partition G) (h : Handle)
    → other.op ≡ some h
    → copy_construct devices other ≡ done q
    → (may_write q.op ≡ true) × ((g : Handle) × (q.op ≡ some g) × (g.device ≡ reopen_path other h))
unfolding may_write copy_construct
copy_construct-may_write devices other q h open_ e =
    let (g, kept, flags, at) =
      opened_flags devices (reopen_path other h) op_rdwr (record other { op = none }) q
        (rw (copy_construct, open_) at e) in
    (rw (kept, flags) refl, (g, kept, at))

empty_reads :
    (k : Kernel) (source : List ℕ) (buffer total fuel round : ℕ) (output : List ℕ)
    → 0 < total
    → ((round count offset : ℕ) → k.read_at round count offset ≡ got 0)
    → ((round : ℕ) → k.is_eperm round ≡ false)
    → ((round : ℕ) → k.write_file round 0 ≡ got 0)
    → iterate
        (dump_step k source buffer total)
        fuel
        record { round = round; so_far = 0; output = output }
      ≡ none
unfolding iterate dump_step
empty_reads k source buffer total zero round output some_bytes nothing allowed writes = refl
empty_reads k source buffer total (suc fuel) round output some_bytes nothing allowed writes =
    let more : ltb 0 total ≡ true = ground arith in
    rw
      (
        iterate,
        dump_step,
        more,
        nothing round (min buffer (total - 0)) 0,
        allowed round,
        dump_write,
        writes round,
      )
      (empty_reads k source buffer total fuel (round + 1) (output ++ []) some_bytes nothing allowed
        writes)

-- A device that answers 0 to every `pread`, as it does behind its end: the loop of `dump` never ends,
-- on any fuel, unless `errno` happens to be `EPERM`.
pub dump_never_ends :
    {G : Gpt} (files : Files) (k : Kernel) (source : List ℕ) (bufsize fuel : ℕ) (p : Partition G)
    (h : Handle) (t : Text)
    → to_open files p ≡ done t
    → p.op ≡ some h
    → 0 < h.size
    → h.size < 2 ^ 64 - 1
    → k.can_create ≡ true
    → ((round count offset : ℕ) → k.read_at round count offset ≡ got 0)
    → ((round : ℕ) → k.is_eperm round ≡ false)
    → ((round : ℕ) → k.write_file round 0 ≡ got 0)
    → dump files k source bufsize fuel p ≡ none
unfolding dump
dump_never_ends files k source bufsize fuel p h t opens open_ some_bytes small create nothing
      allowed writes =
    rw (opens, open_, size_of p h open_ small)
      (if_true _ _ create
        ∙ empty_reads k source (min bufsize h.size) h.size fuel 0 [] some_bytes nothing allowed
            writes)
