-- ===== src/PartitionMap/Table/Query/Positions.antt =====
-- The tables of the partitions with a name, and the choice among them (PartitionTableData.cpp).
use mathlib.Core.List.{Memᴰ}
use mathlib.Core.List.Memᴰ
use pmt_renovated.Base.{
  ◌≡◌, refl, sym, ap, ◌∙◌, subst, ◌⊎◌, inl, inr, Bool, true, false, ◌||◌, none, some, List, [], ◌∷◌,
  map, Text, arith, length, filterb, if-cases, contains, any, Bool-cases, All, text_eq,
  text_eq_sound,
}
use pmt_renovated.Helper.Error.{done}
use pmt_renovated.Helper.Error.Laws.{>>=-eq-done}
use pmt_renovated.PartitionMap.Partition.{Gpt, Files, Partition, name, table_name, path_by_name}
use pmt_renovated.PartitionMap.Table.Query.{named, count_named, positions, choose}
use pmt_renovated.PartitionMap.Table.Query.Laws.{
  IsNormal, table_of, table_name_normal, done_injective,
}

module _ {G : Gpt} where
  abbrev pub Found : Text → Bool × Text → List (Partition G) → Type 0
  Found n part qs = (q : Partition G) × Memᴰ q qs × (named n q ≡ true) × (table_of q ≡ part.1)

  -- Each entry is the table of a partition with the name.
  pub positions_sound :
      (files : Files) (n : Text) (ps : List (Partition G)) (parts : List (Bool × Text))
      (part : Bool × Text)
      → All IsNormal ps
      → positions files n ps ≡ done parts
      → Memᴰ part parts
      → Found n part ps
  unfolding positions
  positions_sound files n [] parts part normal e m =
      absurd (Memᴰ.not-nil (subst (λ l. Memᴰ part l) (sym (done_injective e)) m))
  positions_sound files n (p ∷ ps) parts part (here, rest) e m = elim (if-cases (named n p) _ _ e) [
    | inr (miss, others) ↦ behind (positions_sound files n ps parts part rest others m)
    | inl (hit, own) ↦
        let (by_name, read, e2) = >>=-eq-done (path_by_name files p) _ own in
        let (table, known, e3) = >>=-eq-done (table_name p) _ e2 in
        let (others, found, e4) = >>=-eq-done (positions files n ps) _ e3 in
        let at : table_of p ≡ table = done_injective (sym (table_name_normal p here) ∙ known) in
        first hit table at (λ k. positions_sound files n ps others part rest found k)
          (Memᴰ.cases_cons (subst (λ l. Memᴰ part l) (sym (done_injective e4)) m))
  ]
    where
      behind : Found n part ps → Found n part (p ∷ ps)
      behind (q, among, same, of_table) = (q, Memᴰ.tail among, same, of_table)

      first :
          {used : Bool} {others : List (Bool × Text)}
          → named n p ≡ true
          → (table : Text) → table_of p ≡ table
          → (Memᴰ part others → Found n part ps)
          → (part ≡ (used, table)) ⊎ Memᴰ part others
          → Found n part (p ∷ ps)
      first hit table at below (inl e') = (p, Memᴰ.head refl, hit, at ∙ sym (ap (λ x. x.1) e'))
      first hit table at below (inr k) = behind (below k)

  pub positions_nonempty :
      (files : Files) (n : Text) (ps : List (Partition G))
      → any (named n) ps ≡ true
      → ¬ (positions files n ps ≡ done [])
  unfolding positions any
  positions_nonempty files n [] some_one e = cc
  positions_nonempty files n (p ∷ ps) some_one e = elim (if-cases (named n p) _ _ e) [
    | inr (miss, others) ↦ positions_nonempty files n ps (ground arith) others
    | inl (hit, own) ↦
        let (by_name, read, e2) = >>=-eq-done (path_by_name files p) _ own in
        let (table, known, e3) = >>=-eq-done (table_name p) _ e2 in
        let (others, found, e4) = >>=-eq-done (positions files n ps) _ e3 in
        absurd (cc (done_injective e4))
  ]

  pub positions_absent :
      (files : Files) (n : Text) (ps : List (Partition G))
      → any (named n) ps ≡ false
      → positions files n ps ≡ done []
  unfolding positions any
  positions_absent files n [] absent = refl
  positions_absent files n (p ∷ ps) absent = ground (arith, positions_absent files n ps)

  pub count_absent :
      (n : Text) (ps : List (Partition G)) → any (named n) ps ≡ false → count_named n ps ≡ 0
  unfolding count_named any
  count_absent n [] absent = refl
  count_absent n (p ∷ ps) absent = ground (arith, count_absent n ps)

pub ||-right : (a : Bool) {b : Bool} → b ≡ true → (a || b) ≡ true
||-right a h = ground arith

pub choose_sound :
    (names words : List Text) (choice : Text)
    → choose names words ≡ some choice
    → contains names choice ≡ true
unfolding choose
choose_sound names [] choice e = cc
choose_sound names (word ∷ words) choice e = elim (if-cases (contains names word) _ _ e) [
  | inl (known, same) ↦
      subst (λ w. contains names w ≡ true) (ap (λ o. elim o [ none ↦ word | some x ↦ x ]) same)
        known
  | inr (unknown, later) ↦ choose_sound names words choice later
]

-- The user types none of the names exactly when the choice is still awaited.
pub choose-none :
    (names words : List Text)
    → choose names words ≡ none
    → All (λ word. contains names word ≡ false) words
unfolding choose
choose-none names [] e = tt
choose-none names (word ∷ words) e = elim (if-cases (contains names word) _ _ e) [
  | inl (known, same) ↦ absurd cc
  | inr (unknown, later) ↦ (unknown, choose-none names words later)
]

pub none-choose :
    (names words : List Text)
    → All (λ word. contains names word ≡ false) words
    → choose names words ≡ none
unfolding choose
none-choose names [] all = refl
none-choose names (word ∷ words) (unknown, all) = rw unknown (none-choose names words all)

pub count_named-length :
    {G : Gpt} (n : Text) (ps : List (Partition G))
    → count_named n ps ≡ length (filterb (λ p. text_eq (name p) n) ps)
unfolding count_named named filterb
count_named-length n [] = refl
count_named-length n (p ∷ ps) = ground (arith, count_named-length n ps)

pub chosen_part :
    (parts : List (Bool × Text)) (choice : Text)
    → contains (map (λ part. part.1) parts) choice ≡ true
    → (part : Bool × Text) × Memᴰ part parts × (part.1 ≡ choice)
unfolding contains
chosen_part [] choice h = cc
chosen_part (part ∷ parts) choice h = elim (Bool-cases (text_eq part.1 choice)) [
  | inl same ↦ (part, Memᴰ.head refl, text_eq_sound part.1 choice same)
  | inr other ↦
      let (q, among, e) = chosen_part parts choice (rw (contains, other) at h) in
      (q, Memᴰ.tail among, e)
]
