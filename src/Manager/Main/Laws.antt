-- ===== src/Manager/Main/Laws.antt =====
-- What the checks of `main` on the arguments and the tables say (src/Main.cpp).
use mathlib.Core.List.{Memᴰ}
use mathlib.Core.List.Memᴰ
use pmt_renovated.Base.{
  ℕ, ◌≡◌, ◌≢◌, ◌≤◌, ◌↔◌, refl, sym, ap, ◌∙◌, Bool, true, false, not, ◌&&◌, ◌||◌, ◌⊎◌, inl, inr,
  List, [], ◌∷◌, Text, All, is_empty, any, codes, arith, ltb, ◌==◌, Bool-cases, text_eq_sound,
  text_eq_refl, text_eq,
}
use pmt_renovated.PartitionMap.Partition.{Gpt, Partition, name}
use pmt_renovated.PartitionMap.Table.{Disks, Table}
use pmt_renovated.PartitionMap.Table.Query.{valid, is_has_super_partition, named}
use pmt_renovated.Manager.Main.{Situation, argc_too_small}

pub not_empty_iff : {A : Type 0} (xs : List A) → (is_empty xs ≡ false) ↔ (xs ≢ [])
not_empty_iff [] = (λ e. cc, λ ne. absurd (ne refl))
not_empty_iff (x ∷ xs) = (λ e same. cc same, λ ne. refl)

empty_iff : {A : Type 0} (xs : List A) → (is_empty xs ≡ true) ↔ (xs ≡ [])
empty_iff [] = (λ e. refl, λ e. refl)
empty_iff (x ∷ xs) = (λ e. cc, λ e. cc)

not_or : (a b : Bool) → not (a || b) ≡ true → (a ≡ false) × (not b ≡ true)
not_or false b e = (refl, e)
not_or true b e = cc

or_not : (a b : Bool) → a ≡ false → not b ≡ true → not (a || b) ≡ true
or_not a b none_there rest = ground arith

fine : (v c : ℕ) → (not (v == 0) && not (c == 3)) ≡ false → (v ≡ 0) ⊎ (c ≡ 3)
fine v c e = elim (Bool-cases (v == 0)) [
  | inl zero_problems ↦ inl (grind arith)
  | inr problems ↦ inr (grind arith)
]

not_bad : (v c : ℕ) → (v ≡ 0) ⊎ (c ≡ 3) → (not (v == 0) && not (c == 3)) ≡ false
not_bad v c (inl e) = ground arith
not_bad v c (inr e) = ground arith

module _ {G : Gpt} {D : Disks G} where
  -- The data of each table verifies without problems, or its header has the third kind of validity.
  abbrev pub IsSound : Table G D → Type 0
  IsSound t = All (λ pair. (D.verify pair.1 ≡ 0) ⊎ (D.check_header pair.1 ≡ 3)) t.gpt_data

  pub valid_iff : (t : Table G D) → (valid t ≡ true) ↔ IsSound t
  unfolding valid any
  valid_iff t = by_data t.gpt_data
    where
      by_data :
          (list : List (Text × D.Data))
          → (not (any (λ pair. not (D.verify pair.1 == 0) && not (D.check_header pair.1 == 3)) list)
              ≡ true)
            ↔ All (λ pair. (D.verify pair.1 ≡ 0) ⊎ (D.check_header pair.1 ≡ 3)) list
      by_data [] = (λ e. tt, λ all. refl)
      by_data (pair ∷ list) = (
        λ e.
            let (here, rest) = not_or _ _ e in
            (fine (D.verify pair.1) (D.check_header pair.1) here, (by_data list).0 rest),
        λ (here, rest).
            or_not _ _ (not_bad (D.verify pair.1) (D.check_header pair.1) here)
              ((by_data list).1 rest),
      )

  -- There is a super partition.
  abbrev pub HasSuper : Table G D → Type 0
  HasSuper t = (p : Partition G) × Memᴰ p t.local_partitions × (name p ≡ codes "super")

  pub super_iff : (t : Table G D) → (is_has_super_partition t ≡ true) ↔ HasSuper t
  unfolding is_has_super_partition any named
  super_iff t = by_partitions t.local_partitions
    where
      called_super : Partition G → Bool
      called_super p = text_eq (name p) (codes "super")

      behind :
          (p : Partition G) (ps : List (Partition G))
          → ((q : Partition G) × Memᴰ q ps × (name q ≡ codes "super"))
          → (q : Partition G) × Memᴰ q (p ∷ ps) × (name q ≡ codes "super")
      behind p ps (q, among, called) = (q, Memᴰ.tail among, called)

      or_right : (a : Bool) {b : Bool} → b ≡ true → (a || b) ≡ true
      or_right a h = ground arith

      by_partitions :
          (ps : List (Partition G))
          → (any (λ p. text_eq (name p) (codes "super")) ps ≡ true)
            ↔ ((p : Partition G) × Memᴰ p ps × (name p ≡ codes "super"))
      by_partitions [] = (λ e. cc, λ (p, among, called). absurd (Memᴰ.not-nil among))
      by_partitions (p ∷ ps) = (
        λ e. elim (Bool-cases (text_eq (name p) (codes "super"))) [
          | inl hit ↦ (p, Memᴰ.head refl, text_eq_sound (name p) (codes "super") hit)
          | inr miss ↦ behind p ps ((by_partitions ps).0 (rw miss at e))
        ],
        λ (q, among, called). elim (Memᴰ.cases_cons among) [
          | inl same ↦
              ap (λ x. x || any (λ r. text_eq (name r) (codes "super")) ps)
                (ap (λ s. text_eq s (codes "super")) (ap name (sym same) ∙ called)
                  ∙ text_eq_refl (codes "super"))
          | inr later ↦
              or_right (text_eq (name p) (codes "super")) ((by_partitions ps).1 (q, later, called))
        ],
      )

too_few_cases :
    (n : ℕ) (a b : Bool)
    → (ltb n 2 || (n == 3 && (not a || not b))) ≡ false
    → (2 ≤ n) × ((n ≢ 3) ⊎ ((a ≡ true) × (b ≡ true)))
too_few_cases n true true e = (ground arith, inr (refl, refl))
too_few_cases n true false e = (ground arith, inl (grind arith))
too_few_cases n false b e = (ground arith, inl (grind arith))

enough_cases :
    (n : ℕ) (a b : Bool)
    → 2 ≤ n
    → (n ≢ 3) ⊎ ((a ≡ true) × (b ≡ true))
    → (ltb n 2 || (n == 3 && (not a || not b))) ≡ false
enough_cases n a b two (inl other) = ground arith
enough_cases n a b two (inr (x, y)) = ground arith

module _ {G : Gpt} {D : Disks G} {W : Type 0} (s : Situation G D W) where
  -- There are at least two arguments, the name of the program among them, and if there are three, then no
  -- plugin and no directory of plugins is given.
  abbrev pub Enough : Type 0
  Enough = (2 ≤ s.argc) × ((s.argc ≢ 3) ⊎ ((s.plugins ≡ []) × (s.plugin_path ≡ [])))

  pub argc_too_small_iff : (argc_too_small s ≡ false) ↔ Enough
  unfolding argc_too_small
  argc_too_small_iff = (
    λ e.
        let (two, cases) = too_few_cases s.argc (is_empty s.plugins) (is_empty s.plugin_path) e in
        (
          two,
          elim cases [
            | inl other ↦ inl other
            | inr both ↦ inr ((empty_iff s.plugins).0 both.0, (empty_iff s.plugin_path).0 both.1)
          ],
        ),
    λ (two, cases). enough_cases s.argc _ _ two (elim cases [
      | inl other ↦ inl other
      | inr both ↦ inr ((empty_iff s.plugins).1 both.0, (empty_iff s.plugin_path).1 both.1)
    ]),
  )
