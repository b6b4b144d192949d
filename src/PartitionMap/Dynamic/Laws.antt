-- ===== src/PartitionMap/Dynamic/Laws.antt =====
-- What the checks of the metadata establish, and what `sync` and the free space of a group answer
-- (DynamicPartitionTable.cpp).
use pmt_renovated.Base.{
  ℕ, ◌+◌, ◌*◌, ◌%◌, ◌^◌, ◌≤◌, ◌≡◌, refl, ap, ◌∙◌, subst, ◌⊎◌, inl, inr, Bool, true, false, Option,
  none, some, List, [], ◌∷◌, Text, arith, ltb, ◌==◌, ==_iff, if-cases, Option-cases, All, length,
  get_elem?, text_eq, text_eq_refl, find_if,
}
use pmt_renovated.Helper.Error.{done, undefined, ◌>>=◌}
use pmt_renovated.Helper.Error.Laws.{>>=-eq-done}
use pmt_renovated.PartitionMap.OpenPart.{Handle}
use pmt_renovated.PartitionMap.Partition.{Gpt, Partition, name}
use pmt_renovated.PartitionMap.Table.Query.{named}
use pmt_renovated.PartitionMap.Table.Query.Laws.{done_injective}
use pmt_renovated.PartitionMap.Dynamic.{
  LpPartition, LpGroup, LpExtent, LpMetadata, Dynamic, wrap, deref, group_named, used_of_group,
  free_in_group, group_free_space, minus, partition, synced_as_bool, sync_one, sync_all, sync,
  extents_fit, indices_fit, groups_fit, valid_metadata,
}

-- A linear extent ends within its block device.
abbrev pub Fits : List ℕ → LpExtent → Type 0
Fits devices e =
    (e.is_linear ≡ false)
    ⊎ ((size : ℕ) × (get_elem? devices e.target_source ≡ some size)
        × (wrap (wrap (e.target_data + e.num_sectors) * 512) ≤ size))

pub deref-done {ℓ} : {A : Type ℓ} (o : Option A) {a : A} → deref o ≡ done a → o ≡ some a
deref-done none e = cc
deref-done {A} (some x) {a} e = ap some (ap (λ m. elim m [ done y ↦ y | other ↦ a ]) e)

extents_sound :
    (devices : List ℕ) (extents : List LpExtent)
    → extents_fit devices extents ≡ done true
    → All (Fits devices) extents
unfolding extents_fit
extents_sound devices [] e = tt
extents_sound devices (x ∷ extents) e = elim (if-cases x.is_linear _ _ e) [
  | inr (other, rest) ↦ (inl other, extents_sound devices extents rest)
  | inl (linear, check) ↦
      let (size, known, more) = >>=-eq-done (deref (get_elem? devices x.target_source)) _ check in
      elim (if-cases (ltb size _) _ _ more) [
        | inl (over, stopped) ↦ absurd cc
        | inr (within, rest) ↦
            (inr (size, deref-done _ known, ground arith), extents_sound devices extents rest)
      ]
]

indices_sound :
    (count : ℕ) (ps : List LpPartition)
    → indices_fit count ps ≡ true
    → All (λ p. (p.first_extent_index + p.num_extents) % 2 ^ 32 ≤ count) ps
unfolding indices_fit
indices_sound count [] e = tt
indices_sound count (p ∷ ps) e = elim (if-cases (ltb count _) _ _ e) [
  | inl (over, stopped) ↦ absurd cc
  | inr (within, rest) ↦ (ground arith, indices_sound count ps rest)
]

module _ {G : Gpt} where
  -- Metadata that is found valid is there, has the header's magic number, each of its linear extents
  -- ends within its block device, and the extents of each partition are among those of the table, as
  -- far as the sums, which wrap around, say so.
  pub valid_metadata_sound :
      (magic : ℕ) (d : Dynamic G)
      → valid_metadata magic d ≡ done true
      → (m : LpMetadata) × (d.lp_metadata ≡ some m)
        × (m.magic ≡ magic)
        × All (Fits m.block_devices) m.extents
        × All (λ p. (p.first_extent_index + p.num_extents) % 2 ^ 32 ≤ length m.extents) m.partitions
  unfolding valid_metadata
  valid_metadata_sound magic d e = elim (Option-cases d.lp_metadata) [
    | inl nothing ↦ absurd (cc (rw (valid_metadata, nothing) at e))
    | inr (m, there) ↦ elim (if-cases (m.magic == magic) _ _ (rw (valid_metadata, there) at e)) [
      | inr (other, stopped) ↦ absurd cc
      | inl (same, checks) ↦
          let (groups_ok, e1, rest) = >>=-eq-done (groups_fit m d 0 m.groups) _ checks in
          elim (if-cases groups_ok _ _ rest) [
            | inr (bad, stopped) ↦ absurd cc
            | inl (good, more) ↦
                let (extents_ok, e2, last) =
                  >>=-eq-done (extents_fit m.block_devices m.extents) _ more in
                elim (if-cases extents_ok _ _ last) [
                  | inr (bad, stopped) ↦ absurd cc
                  | inl (fit, indices) ↦ (
                    m,
                    there,
                    (==_iff m.magic magic).0 same,
                    extents_sound m.block_devices m.extents (e2 ∙ ap done fit),
                    indices_sound (length m.extents) m.partitions (done_injective indices),
                  )
                ]
          ]
    ]
  ]

  All-find_if :
      (P : Partition G → Type 0) (f : Partition G → Bool) (ps : List (Partition G))
      {q : Partition G}
      → All P ps
      → find_if f ps ≡ some q
      → P q
  unfolding find_if
  All-find_if P f [] all e = cc
  All-find_if P f (p ∷ ps) {q} (here, rest) e = elim (if-cases (f p) _ _ e) [
    | inl (hit, same) ↦ subst P (ap (λ o. elim o [ none ↦ p | some x ↦ x ]) same) here
    | inr (miss, later) ↦ All-find_if P f ps rest later
  ]

  sync_one_inverted :
      (fsync_works : Handle → Bool) (d : Dynamic G) (n : Text)
      → ((h : Handle) → fsync_works h ≡ true)
      → All (λ q. (h : Handle) × (q.op ≡ some h)) d.local_partitions
      → sync_one fsync_works n d ≡ false
  unfolding sync_one synced_as_bool partition
  sync_one_inverted fsync_works d n works open_ =
      elim (Option-cases (find_if (named n) d.local_partitions)) [
        | inl nothing ↦ rw (sync_one, partition, nothing) refl
        | inr (q, found) ↦
            let (h, own) = All-find_if _ (named n) d.local_partitions open_ found in
            rw (sync_one, partition, found, own, synced_as_bool, works h) refl
      ]

  stays_false :
      (fsync_works : Handle → Bool) (d : Dynamic G) (ps : List (Partition G))
      → sync_all fsync_works ps false d ≡ false
  unfolding sync_all
  stays_false fsync_works d [] = refl
  stays_false fsync_works d (p ∷ ps) = stays_false fsync_works d ps

  -- With an `fsync` that works for every object, and an open object in each partition, `sync` of a
  -- table that is not empty returns false.
  pub sync_inverted :
      (fsync_works : Handle → Bool) (d : Dynamic G) (p : Partition G) (ps : List (Partition G))
      → d.local_partitions ≡ p ∷ ps
      → ((h : Handle) → fsync_works h ≡ true)
      → All (λ q. (h : Handle) × (q.op ≡ some h)) d.local_partitions
      → sync fsync_works d ≡ false
  unfolding sync sync_all
  sync_inverted fsync_works d p ps several works open_ =
      ap (λ qs. sync_all fsync_works qs true d) several
      ∙ rw (sync_all, sync_one_inverted fsync_works d (name p) works open_)
          (stays_false fsync_works d ps)

  -- The free space of a group that exists and that the first partition of the metadata belongs to: when
  -- no logical partition has the group's own name, the function follows an empty optional.
  pub group_free_space_undefined :
      (n : Text) (d : Dynamic G) (m : LpMetadata) (p : LpPartition) (ps : List LpPartition)
      (g h : LpGroup)
      → d.lp_metadata ≡ some m
      → group_named n m ≡ some g
      → m.partitions ≡ p ∷ ps
      → get_elem? m.groups p.group_index ≡ some h
      → h.name ≡ n
      → partition n d ≡ none
      → group_free_space n d ≡ undefined
  unfolding group_free_space free_in_group used_of_group
  group_free_space_undefined n d m p ps g h there group first member same absent =
      let equal : text_eq h.name n ≡ true = ap (λ x. text_eq x n) same ∙ text_eq_refl n in
      let looks : used_of_group n m d (p ∷ ps) 0 ≡ undefined =
        rw (used_of_group, member, equal, absent) refl in
      ap (λ o. deref o >>= λ x. free_in_group n x d (group_named n x)) there
      ∙ ap (free_in_group n m d) group
      ∙ ap (λ l. used_of_group n m d l 0 >>= λ used. done (minus g.maximum_size used)) first
      ∙ ap (λ o. o >>= λ used. done (minus g.maximum_size used)) looks
