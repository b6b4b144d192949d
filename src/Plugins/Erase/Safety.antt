-- ===== src/Plugins/Erase/Safety.antt =====
-- When the erase plugin changes a partition, and what it leaves (src/plugins/ErasePlugin.cpp).
use pmt_renovated.Base.{
  ℕ, ◌≤◌, ◌<◌, min, ◌≡◌, refl, ap, ◌∙◌, sym, subst, ◌⊎◌, inl, inr, Bool, true, false, not, Option,
  none, some, List, ◌∷◌, ◌++◌, Text, codes, arith, ◌==◌, if_false, if◌then◌else◌, if-cases, length,
  All,
}
use pmt_renovated.Helper.Error.{Outcome, done}
use pmt_renovated.Helper.Error.Laws.{done_injective, >>=-eq-done}
use pmt_renovated.Helper.Prompt.{confirm_prompt, confirm_prompt-yes, means_yes, IsUnexpected}
use pmt_renovated.PartitionMap.Partition.{Gpt, Partition, size, absolute_path}
use pmt_renovated.PartitionMap.Partition.Transfer.{zero_bytes}
use pmt_renovated.PartitionMap.Table.{Disks}
use pmt_renovated.PartitionMap.Select.{TableType}
use pmt_renovated.Plugins.Work.{
  Flags, failure, success, buffer_for, find, refused, gives, min_buffer_size,
}
use pmt_renovated.Plugins.Work.Laws.{before-eq-done, after-eq-done, some_injective, buffer_for_fits}
use pmt_renovated.Plugins.Erase.{
  Task, Ending, erase, run_found, run_async, set_up, confirm, erase_loop,
}
use pmt_renovated.Plugins.Erase.Laws.{
  IsBounded, Leaves, Progresses, erased_message, erase_loop-Leaves, erase_loop_zeros,
}

-- A yes among what the user typed, behind unexpected answers alone.
abbrev pub SaysYes : List ℕ → Type 0
SaysYes typed =
    (junk : List ℕ) × (p : ℕ) × (rest : List ℕ) × (typed ≡ junk ++ (p ∷ rest))
    × (means_yes p ≡ true)
    × All IsUnexpected junk

confirm-SaysYes :
    (forced : Bool) (tries : ℕ) (typed : List ℕ)
    → confirm forced tries typed ≡ done tt
    → (forced ≡ true) ⊎ SaysYes typed
unfolding confirm
confirm-SaysYes true tries typed e = inl refl
confirm-SaysYes false tries typed e =
    let (r, asked, answered) = >>=-eq-done (confirm_prompt 10 tries typed) _ e in
    elim (if-cases r.answer _ _ answered) [
      | inr (said_no, thrown) ↦ absurd cc
      | inl (said_yes, ended) ↦
          let (junk, p, whole, good, unexpected, bound) =
            confirm_prompt-yes 10 tries typed asked said_yes in
          inr (junk, p, r.rest, whole, good, unexpected)
    ]

module _ {G : Gpt} {D : Disks G} (f : Flags G D) (t : Task) (name : Text) where
  -- A task that ends leaves zeros in front and the rest as it was, and zeros alone when it succeeds. It
  -- leaves the partition as it was unless the process is forced or the user has said yes.
  abbrev pub Safe : Ending → Type 0
  Safe r =
      Leaves (t.content_of name) r
      × ((r.1 ≡ t.content_of name) ⊎ ((f.force_process ≡ true) ⊎ SaysYes (t.typed name)))

  kept : (message : Text) → Safe (failure message, t.content_of name)
  unfolding failure zero_bytes
  kept message = ((0, omega arith, refl, λ h. absurd cc), inl refl)

  guarded :
      (b : Bool) (message : Text) (rest : Option (Outcome Ending)) {r : Ending}
      → (if b then gives (failure message) (t.content_of name) else rest) ≡ some (done r)
      → Safe r ⊎ ((b ≡ false) × (rest ≡ some (done r)))
  guarded true message rest e = inl (subst Safe (done_injective (some_injective e)) (kept message))
  guarded false message rest e = inr (refl, e)

  erase-Safe :
      (p : Partition G) (t_type : Option TableType) {r : Ending}
      → IsBounded (t.kernel name)
      → size p ≡ done (length (t.content_of name))
      → erase f t name p t_type ≡ some (done r)
      → Safe r
  unfolding erase
  erase-Safe p t_type {r} bounded known e =
      let (total, sized, e1) = before-eq-done (size p) _ e in
      elim (guarded (total == 0) _ _ e1) [
        | inl safe ↦ safe
        | inr (some_there, e2) ↦ elim (guarded (refused f t_type) _ _ e2) [
          | inl safe ↦ safe
          | inr (allowed, e3) ↦
              let (clamped, chosen, e4) = before-eq-done (buffer_for t.buffer_size total) _ e3 in
              let (buf, fitted, e5) = before-eq-done (set_up f t name clamped) _ e4 in
              let (path, known_path, e6) = before-eq-done (absolute_path f.files p) _ e5 in
              elim (guarded (not (t.kernel name).can_open) _ _ e6) [
                | inl safe ↦ safe
                | inr (opened, e7) ↦
                    let (u, agreed, e8) =
                      before-eq-done (confirm f.force_process t.total_tries (t.typed name)) _ e7 in
                    let whole : total ≡ length (t.content_of name) =
                      done_injective (sym sized ∙ known) in
                    let loop : erase_loop (t.kernel name) buf (length (t.content_of name)) t.fuel
                          (t.content_of name)
                        ≡ some (done r) =
                      ap (λ n. erase_loop (t.kernel name) buf n t.fuel (t.content_of name))
                        (sym whole)
                      ∙ e8 in
                    (
                      erase_loop-Leaves (t.kernel name) buf (t.content_of name) t.fuel bounded loop,
                      inr (confirm-SaysYes f.force_process t.total_tries (t.typed name) agreed),
                    )
              ]
        ]
      ]

  -- A task of a kernel that writes no more than it is given, on a partition whose size is that of its
  -- content: when it ends, the first bytes of the partition are zero and the others as they were, and
  -- all are zero if it succeeds; and the partition is as it was unless the process is forced or the
  -- user has said yes.
  pub run_async-Safe :
      {r : Ending}
      → IsBounded (t.kernel name)
      → ((p : Partition G) (t_type : Option TableType)
          → find f name ≡ some (done (some p, t_type))
          → size p ≡ done (length (t.content_of name)))
      → run_async f t name ≡ some (done r)
      → Safe r
  unfolding run_async run_found
  run_async-Safe {r} bounded known e =
      let (found, searched, e1) = after-eq-done (find f name) _ e in behind found searched e1
    where
      behind :
          (found : Option (Partition G) × Option TableType)
          → find f name ≡ some (done found)
          → run_found f t name found ≡ some (done r)
          → Safe r
      behind (none, t_type) searched e1 =
          subst Safe (done_injective (some_injective e1)) (kept (codes "Couldn't find partition"))
      behind (some p, t_type) searched e1 = erase-Safe p t_type bounded (known p t_type searched) e1

  -- Where the name leads to a partition that is not refused, whose size is that of its content, the
  -- partition and the buffer size are at least 1,024 bytes, the buffer that is set up is not empty, the path
  -- is known and can be opened, the prompt agrees or the process is forced, each write takes at least one
  -- byte and no more than it is given, and the fuel is more than the size of the partition: the task
  -- succeeds and the partition holds zeros.
  pub run_async_erases :
      (p : Partition G) (t_type : Option TableType) (buf : ℕ) (path : Text)
      → find f name ≡ some (done (some p, t_type))
      → refused f t_type ≡ false
      → size p ≡ done (length (t.content_of name))
      → min_buffer_size ≤ t.buffer_size
      → min_buffer_size ≤ length (t.content_of name)
      → set_up f t name (min t.buffer_size (length (t.content_of name))) ≡ done buf
      → 0 < buf
      → absolute_path f.files p ≡ done path
      → (t.kernel name).can_open ≡ true
      → confirm f.force_process t.total_tries (t.typed name) ≡ done tt
      → Progresses (t.kernel name)
      → length (t.content_of name) < t.fuel
      → run_async f t name
        ≡ gives (success erased_message) (zero_bytes (length (t.content_of name)))
  unfolding run_async run_found erase
  run_async_erases p t_type buf path found allowed known roomy large fitted room opened can agreed
        progress enough =
      let content = t.content_of name in
      let not_empty : (length content == 0) ≡ false = ground arith in
      let buffered = buffer_for_fits t.buffer_size (length content) roomy large in
      let loop = erase_loop_zeros (t.kernel name) buf content t.fuel progress room enough in
      rw (found, known, not_empty, allowed, buffered, fitted, opened)
        (if_false _ _ (ap not can) ∙ rw agreed loop)
