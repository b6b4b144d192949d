-- ===== src/PartitionMap/Table/Query/Laws.antt =====
-- What the lookups by name find (PartitionTableData.cpp).
use mathlib.Core.List.{Memᴰ}
use mathlib.Core.List.Memᴰ
use pmt_renovated.Base.{
  ◌≡◌, refl, sym, ap, ◌∙◌, ◌↔◌, ◌⊎◌, inl, inr, Bool, true, false, ◌&&◌, none, some, List, [], ◌∷◌,
  Text, arith, if◌then◌else◌, if-cases, is_empty, find_if, find_if_sound, ◌||◌, Bool-cases, All,
  text_eq, text_eq_sound, text_eq_refl, &&-true,
}
pub use pmt_renovated.Helper.Error.Laws.{done_injective}
use pmt_renovated.Helper.Error.{done}
use pmt_renovated.PartitionMap.Partition.{Gpt, Partition, name, table_name, filename}
use pmt_renovated.PartitionMap.Table.{Disks, Table}
use pmt_renovated.PartitionMap.Table.Query.{named, in_table, matches, find_match, partition}

module _ {G : Gpt} where
  abbrev pub IsNormal : Partition G → Type 0
  IsNormal p = p.is_logical ≡ false

  -- The name of the table that a normal partition belongs to.
  abbrev pub table_of : Partition G → Text
  table_of p = filename p.local_table_path

  pub table_name_normal : (p : Partition G) → IsNormal p → table_name p ≡ done (table_of p)
  unfolding table_name
  table_name_normal p normal = rw (table_name, normal) refl

  in_table_normal :
      (t : Text) (p : Partition G) → IsNormal p → in_table t p ≡ done (text_eq (table_of p) t)
  unfolding in_table
  in_table_normal t p normal = rw (in_table, table_name_normal p normal) refl

  abbrev hit_by : Text → Text → Partition G → Bool
  hit_by n from p = named n p && (is_empty from || text_eq (table_of p) from)

  matches_normal :
      (n from : Text) (p : Partition G) → IsNormal p → matches n from p ≡ done (hit_by n from p)
  unfolding matches
  matches_normal n [] p normal = ground arith
  matches_normal n (c ∷ from) p normal = elim (Bool-cases (named n p)) [
    | inl hit ↦ rw (matches, hit, in_table_normal (c ∷ from) p normal) refl
    | inr miss ↦ rw (matches, miss) refl
  ]

  -- Over normal partitions, the search ends with the first hit, or with nothing.
  find_match_first :
      (n from : Text) (ps : List (Partition G))
      → All IsNormal ps
      → find_match n from ps ≡ done (find_if (hit_by n from) ps)
  unfolding find_match find_if
  find_match_first n from [] normal = refl
  find_match_first n from (p ∷ ps) (here, rest) =
      rw (matches_normal n from p here, find_match_first n from ps rest) (branch (hit_by n from p))
    where
      branch :
          (b : Bool)
          → (if b then done (some p) else done (find_if (hit_by n from) ps))
            ≡ done (if b then some p else find_if (hit_by n from) ps)
      branch true = refl
      branch false = refl

  pub find_if-Memᴰ :
      (f : Partition G → Bool) (ps : List (Partition G)) {p : Partition G}
      → find_if f ps ≡ some p
      → Memᴰ p ps
  unfolding find_if
  find_if-Memᴰ f [] e = cc
  find_if-Memᴰ f (q ∷ ps) e = elim (if-cases (f q) _ _ e) [
    | inl (hit, same) ↦ Memᴰ.head (sym (some_injective same))
    | inr (miss, rest) ↦ Memᴰ.tail (find_if-Memᴰ f ps rest)
  ]
    where
      some_injective : {a b : Partition G} → some a ≡ some b → a ≡ b
      some_injective {a} e' = ap (λ o. elim o [ none ↦ a | some x ↦ x ]) e'

  find_if_complete :
      (f : Partition G → Bool) (ps : List (Partition G)) (p : Partition G)
      → Memᴰ p ps
      → f p ≡ true
      → (q : Partition G) × (find_if f ps ≡ some q) × (f q ≡ true)
  unfolding find_if
  find_if_complete f (q ∷ ps) p m h = elim (Bool-cases (f q)) [
    | inl hit ↦ (q, rw hit refl, hit)
    | inr miss ↦
        let (r, found, good) = find_if_complete f ps p (behind miss (Memᴰ.cases_cons m)) h in
        (r, rw miss found, good)
  ]
    where
      behind : f q ≡ false → (p ≡ q) ⊎ Memᴰ p ps → Memᴰ p ps
      behind miss (inl e) = absurd (cc)
      behind miss (inr n) = n
  find_if_complete f [] p m h = absurd (Memᴰ.not-nil m)

module _ {G : Gpt} {D : Disks G} where
  -- A partition that a search among normal partitions gives is one of the list, has the wanted name,
  -- and is of the wanted table, where one is named.
  pub partition_sound :
      (n from : Text) (t : Table G D) (p : Partition G)
      → All IsNormal t.local_partitions
      → partition n from t ≡ done (some p)
      → Memᴰ p t.local_partitions
        × (name p ≡ n)
        × ((is_empty from || text_eq (table_of p) from) ≡ true)
  unfolding partition named
  partition_sound n from t p normal e =
      let found = done_injective (sym (find_match_first n from t.local_partitions normal) ∙ e) in
      let parts = &&-true _ _ (find_if_sound (hit_by n from) t.local_partitions p found) in
      (find_if-Memᴰ _ t.local_partitions found, text_eq_sound (name p) n parts.0, parts.1)

  -- Among normal partitions, a search gives a partition exactly when the list has one with the wanted
  -- name and, where a table is named, of that table.
  pub partition_iff :
      (n from : Text) (t : Table G D)
      → All IsNormal t.local_partitions
      → ((p : Partition G) × (partition n from t ≡ done (some p))) ↔ (
          (p : Partition G) × Memᴰ p t.local_partitions
          × (name p ≡ n)
          × ((is_empty from || text_eq (table_of p) from) ≡ true))
  unfolding partition named
  partition_iff n from t normal = (
    λ (p, e).
        let (among, same, of_table) = partition_sound n from t p normal e in
        (p, among, same, of_table),
    λ (p, among, same, of_table).
        let hit : hit_by n from p ≡ true =
          both (ap (λ m. text_eq m n) same ∙ text_eq_refl n) of_table in
        let (q, found, good) = find_if_complete (hit_by n from) t.local_partitions p among hit in
        (q, find_match_first n from t.local_partitions normal ∙ ap done found),
  )
    where
      both : {a b : Bool} → a ≡ true → b ≡ true → (a && b) ≡ true
      both h k = ground arith
