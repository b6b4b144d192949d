-- ===== src/PartitionMap/Table/Removal.antt =====
-- What is left after `removeTable` (PartitionTableData.cpp).
use mathlib.Core.List.{Memᴰ}
use mathlib.Core.List.Memᴰ
use pmt_renovated.Base.{
  ◌≡◌, ◌≢◌, refl, sym, ap, ◌∙◌, ◌⊎◌, inl, inr, Bool, true, false, not, ◌&&◌, List, [], ◌∷◌, Text,
  if_false, filterb, contains, text_eq, text_eq_refl, Bool-cases,
}
use pmt_renovated.Helper.Error.{done}
use pmt_renovated.PartitionMap.Partition.{Gpt, Partition, from_arguments}
use pmt_renovated.PartitionMap.Table.{
  Disks, System, Table, erase, scan, re_scan_if, remove_table, block_path,
}
use pmt_renovated.PartitionMap.Table.Scan.{scan_finds}

erased : (s k : Text) (names : List Text) → Memᴰ k (erase s names) → Memᴰ k names × (k ≢ s)
unfolding erase filterb
erased s k [] m = absurd (Memᴰ.not-nil m)
erased s k (n ∷ names) m = elim (Bool-cases (text_eq n s)) [
  | inl same ↦
      let (among, other) = erased s k names (rw (erase, filterb, same) at m) in
      (Memᴰ.tail among, other)
  | inr other ↦
      new other (λ r. erased s k names r) (Memᴰ.cases_cons (rw (erase, filterb, other) at m))
]
  where
    new :
        text_eq n s ≡ false
        → (Memᴰ k (erase s names) → Memᴰ k names × (k ≢ s))
        → (k ≡ n) ⊎ Memᴰ k (erase s names)
        → Memᴰ k (n ∷ names) × (k ≢ s)
    new other below (inl e) = (
      Memᴰ.head e,
      λ same. cc (sym (text_eq_refl s) ∙ ap (λ x. text_eq x s) (sym same ∙ e) ∙ other),
    )
    new other below (inr r) = let (among, apart) = below r in (Memᴰ.tail among, apart)

-- After the removal of a table that is listed, with automatic scanning on, every partition of the
-- object is a normal one, of a table that is still listed and is not the removed one.
pub remove_table_forgets :
    {G : Gpt} (D : Disks G) (system : System) (t u : Table G D) (n : Text) (part : Partition G)
    → contains t.local_table_names n ≡ true
    → t.build_auto ≡ true
    → remove_table D system n t ≡ done u
    → Memᴰ part u.local_partitions
    → (k : Text) × Memᴰ k t.local_table_names
      × (k ≢ n)
      × (part.local_table_path ≡ block_path k)
      × (part.is_logical ≡ false)
unfolding remove_table re_scan_if from_arguments
remove_table_forgets D system t u n part listed auto e m =
    let smaller = record t { local_table_names = erase n t.local_table_names } in
    let scanned : scan D system smaller ≡ done u =
      sym (if_false _ _ (not_auto auto)) ∙ (rw (remove_table, listed, re_scan_if) at e) in
    let (k, among, fixed, gpt, loaded, (i, low, high, used, same)) =
      (scan_finds D system smaller u scanned part).0 m in
    let (old, other) = erased n k t.local_table_names among in
    (k, old, other, ap (λ p. p.local_table_path) same, ap (λ p. p.is_logical) same)
  where
    not_auto : {b : Bool} → b ≡ true → (true && not b) ≡ false
    not_auto h = rw h refl
