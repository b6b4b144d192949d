-- ===== src/PartitionMap/Table/Scan.antt =====
-- What `scan` finds (PartitionTableData.cpp).
use mathlib.Core.List.{Memᴰ}
use mathlib.Core.List.Memᴰ
use pmt_renovated.Base.{
  ℕ, zero, suc, ◌+◌, ◌≤◌, ◌<◌, ◌≡◌, refl, sym, ap, subst, ◌∙◌, ◌↔◌, ◌⊎◌, inl, inr, true, false,
  Option, none, some, List, [], ◌∷◌, ◌++◌, Text, arith, ◌==◌, ==_iff, if◌then◌else◌, is_empty,
  Bool-cases, Option-cases,
}
use pmt_renovated.Helper.Error.{Outcome, done}
use pmt_renovated.PartitionMap.OpenPart.{openpart_open, op_rdwr}
use pmt_renovated.PartitionMap.Partition.{Gpt, Partition, from_arguments, name}
use pmt_renovated.PartitionMap.Table.{
  Disks, System, Table, text_lt, insert, sort, entries_from, scan_names, scan, block_path,
  part_path, is_removable, assign,
}

module _ {G : Gpt} where
  insert_sound :
      (p q : Partition G) (qs : List (Partition G)) → Memᴰ q (insert p qs) → Memᴰ q (p ∷ qs)
  unfolding insert
  insert_sound p q [] m = m
  insert_sound p q (r ∷ qs) m = elim (Bool-cases (text_lt (name r) (name p))) [
    | inl less ↦ moved (λ n. insert_sound p q qs n) (Memᴰ.cases_cons (rw (insert, less) at m))
    | inr not_less ↦ rw (insert, not_less) at m
  ]
    where
      behind : Memᴰ q (p ∷ qs) → Memᴰ q (p ∷ (r ∷ qs))
      behind (Memᴰ.head e) = Memᴰ.head e
      behind (Memᴰ.tail n) = Memᴰ.tail (Memᴰ.tail n)

      moved :
          (Memᴰ q (insert p qs) → Memᴰ q (p ∷ qs))
          → (q ≡ r) ⊎ Memᴰ q (insert p qs)
          → Memᴰ q (p ∷ (r ∷ qs))
      moved below (inl e) = Memᴰ.tail (Memᴰ.head e)
      moved below (inr n) = behind (below n)

  insert_complete :
      (p q : Partition G) (qs : List (Partition G)) → Memᴰ q (p ∷ qs) → Memᴰ q (insert p qs)
  unfolding insert
  insert_complete p q [] m = m
  insert_complete p q (r ∷ qs) m = elim (Bool-cases (text_lt (name r) (name p))) [
    | inl less ↦ rw (insert, less) (moved (λ n. insert_complete p q qs n) m)
    | inr not_less ↦ rw (insert, not_less) m
  ]
    where
      moved :
          (Memᴰ q (p ∷ qs) → Memᴰ q (insert p qs))
          → Memᴰ q (p ∷ (r ∷ qs))
          → Memᴰ q (r ∷ insert p qs)
      moved below (Memᴰ.head e) = Memᴰ.tail (below (Memᴰ.head e))
      moved below (Memᴰ.tail (Memᴰ.head e)) = Memᴰ.head e
      moved below (Memᴰ.tail (Memᴰ.tail n)) = Memᴰ.tail (below (Memᴰ.tail n))

  sort-Memᴰ : (q : Partition G) (ps : List (Partition G)) → Memᴰ q (sort ps) ↔ Memᴰ q ps
  unfolding sort
  sort-Memᴰ q [] = (λ m. m, λ m. m)
  sort-Memᴰ q (p ∷ ps) = (
    λ m. down (λ n. (sort-Memᴰ q ps).0 n) (insert_sound p q (sort ps) m),
    λ m. insert_complete p q (sort ps) (up (λ n. (sort-Memᴰ q ps).1 n) m),
  )
    where
      down : (Memᴰ q (sort ps) → Memᴰ q ps) → Memᴰ q (p ∷ sort ps) → Memᴰ q (p ∷ ps)
      down below (Memᴰ.head e) = Memᴰ.head e
      down below (Memᴰ.tail n) = Memᴰ.tail (below n)

      up : (Memᴰ q ps → Memᴰ q (sort ps)) → Memᴰ q (p ∷ ps) → Memᴰ q (p ∷ sort ps)
      up below (Memᴰ.head e) = Memᴰ.head e
      up below (Memᴰ.tail n) = Memᴰ.tail (below n)

-- The independent description: a used entry of a device that is listed, not removable, and readable.
module _ {G : Gpt} (D : Disks G) (system : System) where
  abbrev pub Entry : Text → D.Data → ℕ → ℕ → Partition G → Type 0
  Entry p gpt from rounds part =
      (i : ℕ) × (from ≤ i)
      × (i < from + rounds)
      × (G.is_used (D.entry gpt i) ≡ true)
      × (part
          ≡ from_arguments G p (D.entry gpt i)
              (openpart_open system.devices (part_path p i) op_rdwr) i)

  abbrev pub Registered : List Text → Partition G → Type 0
  Registered names part =
      (n : Text) × Memᴰ n names
      × (is_removable (system.removable n) ≡ false)
      × (gpt : D.Data) × (D.load (block_path n) ≡ some gpt)
      × Entry (block_path n) gpt 0 (D.num_parts gpt) part

  entries_sound :
      (p : Text) (gpt : D.Data) (rounds i : ℕ) (part : Partition G)
      → Memᴰ part (entries_from D system p gpt rounds i)
      → Entry p gpt i rounds part
  unfolding entries_from
  entries_sound p gpt zero i part m = absurd (Memᴰ.not-nil m)
  entries_sound p gpt (suc rounds) i part m = elim (Bool-cases (G.is_used (D.entry gpt i))) [
    | inl used ↦
        found (λ n. entries_sound p gpt rounds (i + 1) part n) used
          (Memᴰ.cases_cons (rw (entries_from, used) at m))
    | inr free ↦ later (entries_sound p gpt rounds (i + 1) part (rw (entries_from, free) at m))
  ]
    where
      later : Entry p gpt (i + 1) rounds part → Entry p gpt i (suc rounds) part
      later (j, from, below, used, same) = (j, omega arith, omega arith, used, same)

      found :
          (Memᴰ part (entries_from D system p gpt rounds (i + 1)) → Entry p gpt (i + 1) rounds part)
          → G.is_used (D.entry gpt i) ≡ true
          → (part
              ≡ from_arguments G p
                  (D.entry gpt i)
                  (openpart_open system.devices (part_path p i) op_rdwr)
                  i)
            ⊎ Memᴰ part (entries_from D system p gpt rounds (i + 1))
          → Entry p gpt i (suc rounds) part
      found below used (inl e) = (i, omega arith, omega arith, used, e)
      found below used (inr n) = later (below n)

  entries_complete :
      (p : Text) (gpt : D.Data) (rounds i : ℕ) (part : Partition G)
      → Entry p gpt i rounds part
      → Memᴰ part (entries_from D system p gpt rounds i)
  unfolding entries_from
  entries_complete p gpt zero i part (j, from, below, used, same) = absurd (omega arith)
  entries_complete p gpt (suc rounds) i part (j, from, below, used, same) =
      elim (Bool-cases (i == j)) [
        | inl here ↦
            let at : i ≡ j = (==_iff i j).0 here in
            rw (entries_from, subst (λ x. G.is_used (D.entry gpt x) ≡ true) (sym at) used)
              (Memᴰ.head (
                same
                ∙ ap
                    (λ x.
                      from_arguments G p (D.entry gpt x)
                        (openpart_open system.devices (part_path p x) op_rdwr) x)
                    (sym at)))
        | inr away ↦
            let rest =
              entries_complete p gpt rounds (i + 1) part
                (j, ground arith, omega arith, used, same) in
            skip (Bool-cases (G.is_used (D.entry gpt i))) rest
      ]
    where
      skip :
          (G.is_used (D.entry gpt i) ≡ true) ⊎ (G.is_used (D.entry gpt i) ≡ false)
          → Memᴰ part (entries_from D system p gpt rounds (i + 1))
          → Memᴰ part (entries_from D system p gpt (suc rounds) i)
      skip (inl used_here) m = rw (entries_from, used_here) (Memᴰ.tail m)
      skip (inr free) m = rw (entries_from, free) m

  abbrev loaded : Text → Option D.Data
  loaded n = if is_removable (system.removable n) then none else D.load (block_path n)

  abbrev Known : Text → Partition G → Type 0
  Known n part =
      (gpt : D.Data) × (loaded n ≡ some gpt) × Entry (block_path n) gpt 0 (D.num_parts gpt) part

  names_sound :
      (names : List Text) (collection : List (Text × D.Data)) (parts : List (Partition G))
      (part : Partition G)
      → Memᴰ part (scan_names D system names collection parts).1
      → Memᴰ part parts ⊎ ((n : Text) × Memᴰ n names × Known n part)
  unfolding scan_names
  names_sound [] collection parts part m = inl m
  names_sound (n ∷ names) collection parts part m = elim (Option-cases (loaded n)) [
    | inl nothing ↦ later (names_sound names collection parts part (rw (scan_names, nothing) at m))
    | inr (gpt, e) ↦
        let more = parts ++ entries_from D system (block_path n) gpt (D.num_parts gpt) 0 in
        here gpt e (
          names_sound names (assign (block_path n) gpt collection) more part
            (rw (scan_names, e) at m))
  ]
    where
      later :
          Memᴰ part parts ⊎ ((k : Text) × Memᴰ k names × Known k part)
          → Memᴰ part parts ⊎ ((k : Text) × Memᴰ k (n ∷ names) × Known k part)
      later (inl old) = inl old
      later (inr (k, among, known)) = inr (k, Memᴰ.tail among, known)

      new :
          (gpt : D.Data)
          → loaded n ≡ some gpt
          → Memᴰ part parts
            ⊎ Memᴰ part (entries_from D system (block_path n) gpt (D.num_parts gpt) 0)
          → Memᴰ part parts ⊎ ((k : Text) × Memᴰ k (n ∷ names) × Known k part)
      new gpt e (inl old) = inl old
      new gpt e (inr own) = inr (
        n,
        Memᴰ.head refl,
        (gpt, e, entries_sound (block_path n) gpt (D.num_parts gpt) 0 part own),
      )

      here :
          (gpt : D.Data)
          → loaded n ≡ some gpt
          → Memᴰ part (parts ++ entries_from D system (block_path n) gpt (D.num_parts gpt) 0)
            ⊎ ((k : Text) × Memᴰ k names × Known k part)
          → Memᴰ part parts ⊎ ((k : Text) × Memᴰ k (n ∷ names) × Known k part)
      here gpt e (inl either) = new gpt e (Memᴰ.append_cases parts either)
      here gpt e (inr (k, among, known)) = inr (k, Memᴰ.tail among, known)

  names_keep :
      (names : List Text) (collection : List (Text × D.Data)) (parts : List (Partition G))
      (part : Partition G)
      → Memᴰ part parts
      → Memᴰ part (scan_names D system names collection parts).1
  unfolding scan_names
  names_keep [] collection parts part m = m
  names_keep (n ∷ names) collection parts part m = elim (Option-cases (loaded n)) [
    | inl nothing ↦ rw (scan_names, nothing) (names_keep names collection parts part m)
    | inr (gpt, e) ↦
        rw (scan_names, e)
          (names_keep names (assign (block_path n) gpt collection) _ part (Memᴰ.append_left _ m))
  ]

  names_complete :
      (names : List Text) (collection : List (Text × D.Data)) (parts : List (Partition G))
      (part : Partition G) (n : Text)
      → Memᴰ n names
      → Known n part
      → Memᴰ part (scan_names D system names collection parts).1
  unfolding scan_names
  names_complete [] collection parts part n among known = absurd (Memᴰ.not-nil among)
  names_complete (k ∷ names) collection parts part n (Memᴰ.head same) (gpt, e, entry) =
      let known : loaded k ≡ some gpt = ap loaded (sym same) ∙ e in
      let own =
        subst (λ x. Memᴰ part (entries_from D system (block_path x) gpt (D.num_parts gpt) 0)) same
          (entries_complete (block_path n) gpt (D.num_parts gpt) 0 part entry) in
      rw (scan_names, known)
        (names_keep names (assign (block_path k) gpt collection) _ part
          (Memᴰ.append_right parts own))
  names_complete (k ∷ names) collection parts part n (Memᴰ.tail among) known =
      elim (Option-cases (loaded k)) [
        | inl nothing ↦
            rw (scan_names, nothing) (names_complete names collection parts part n among known)
        | inr (gpt, e) ↦
            rw (scan_names, e)
              (names_complete names (assign (block_path k) gpt collection) _ part n among known)
      ]

  loaded_iff :
      (n : Text) (gpt : D.Data)
      → (loaded n ≡ some gpt)
        ↔ ((is_removable (system.removable n) ≡ false) × (D.load (block_path n) ≡ some gpt))
  loaded_iff n gpt = elim (Bool-cases (is_removable (system.removable n))) [
    | inl removable ↦ rw removable ((λ e. cc), (λ e. cc))
    | inr fixed ↦ rw fixed ((λ e. (refl, e)), (λ e. e.1))
  ]

  partitions_of : Outcome (Table G D) → List (Partition G)
  partitions_of (done t) = t.local_partitions
  partitions_of m = []

  scanned_partitions :
      (t u : Table G D)
      → scan D system t ≡ done u
      → u.local_partitions ≡ sort (scan_names D system t.local_table_names [] []).1
  unfolding scan partitions_of
  scanned_partitions t u e = elim (Bool-cases (is_empty t.local_table_names)) [
    | inl nothing ↦ absurd (cc (rw (scan, nothing) at e))
    | inr several ↦ sym (ap partitions_of (rw (scan, several) at e))
  ]

  -- A scan that succeeds lists exactly the partitions that it should: those of a used entry of a table
  -- that is among the table names, is not removable, and can be loaded, each with the entry's index
  -- and the object that was opened for it.
  pub scan_finds :
      (t u : Table G D)
      → scan D system t ≡ done u
      → (part : Partition G) → Memᴰ part u.local_partitions ↔ Registered t.local_table_names part
  unfolding scan
  scan_finds t u e part =
      let listed = scanned_partitions t u e in
      let ran = (scan_names D system t.local_table_names [] []).1 in
      (
        λ m. registered (
            names_sound t.local_table_names [] [] part
              ((sort-Memᴰ part ran).0 (subst (λ ps. Memᴰ part ps) listed m))),
        λ (n, among, fixed, gpt, e, entry).
            subst (λ ps. Memᴰ part ps) (sym listed)
              ((sort-Memᴰ part ran).1 (
                names_complete t.local_table_names [] [] part n among
                  (gpt, (loaded_iff n gpt).1 (fixed, e), entry))),
      )
    where
      registered :
          Memᴰ part [] ⊎ ((n : Text) × Memᴰ n t.local_table_names × Known n part)
          → Registered t.local_table_names part
      registered (inl old) = absurd (Memᴰ.not-nil old)
      registered (inr (n, among, (gpt, e, entry))) =
          let (fixed, ready) = (loaded_iff n gpt).0 e in (n, among, fixed, gpt, ready, entry)
