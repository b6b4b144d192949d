-- ===== src/Plugins/Listing/Laws.antt =====
-- Which partitions are shown, and in which unit (src/plugins/PartitionSizePlugin.cpp, InfoPlugin.cpp).
use mathlib.Core.List.{Memᴰ}
use mathlib.Core.List.Memᴰ
use pmt_renovated.Base.{
  ◌≡◌, refl, ap, ◌∙◌, sym, subst, inl, inr, Bool, true, false, ◌||◌, Option, none, some, List, [],
  ◌∷◌, ◌++◌, Text, codes, text_eq, text_eq_sound, arith, if◌then◌else◌, if-cases, Bool-cases, All,
  All-append, find_if_sound, &&-true,
}
use pmt_renovated.Helper.Error.{done, ◌>>=◌}
use pmt_renovated.Helper.Error.Laws.{>>=-eq-done, done_injective}
use pmt_renovated.PartitionMap.Magic.{SizeUnit, mib, gib}
use pmt_renovated.PartitionMap.Partition.{Gpt, Partition, name}
use pmt_renovated.PartitionMap.Table.{Disks, Table}
use pmt_renovated.PartitionMap.Table.Query
use pmt_renovated.PartitionMap.Table.Query.{named}
use pmt_renovated.PartitionMap.Table.Query.Laws.{IsNormal, partition_sound, find_if-Memᴰ}
use pmt_renovated.PartitionMap.Dynamic
use pmt_renovated.PartitionMap.Dynamic.{Dynamic, deref}
use pmt_renovated.Plugins.Listing.{
  UnitFlags, size_unit, with_defaults, sizeof_defaults, back, for_each_for, for_each_for_dynamic,
  all_exist, shown,
}

-- Whatever unit is asked for, `sizeof` shows gigabytes if they were asked for, and megabytes otherwise.
pub sizeof_unit :
    (start : SizeUnit) (typed : UnitFlags)
    → size_unit start (with_defaults sizeof_defaults typed) ≡ (if typed.as_giga then gib else mib)
unfolding size_unit with_defaults
sizeof_unit start typed = ground arith

module _ {G : Gpt} where
  -- A partition of the table, with one of the names.
  abbrev pub IsAsked : List Text → List (Partition G) → Partition G → Type 0
  IsAsked names listed p = Memᴰ p listed × Memᴰ (name p) names

  abbrev pub Has : List (Partition G) → Text → Type 0
  Has ps n = (p : Partition G) × Memᴰ p ps × (name p ≡ n)

  wider_names :
      (n : Text) (names : List Text) (listed ps : List (Partition G))
      → All (IsAsked names listed) ps
      → All (IsAsked (n ∷ names) listed) ps
  wider_names n names listed [] h = tt
  wider_names n names listed (p ∷ ps) ((among, asked), h) =
      ((among, Memᴰ.tail asked), wider_names n names listed ps h)

  still_shown : (p : Partition G) (ps : List (Partition G)) (n : Text) → Has ps n → Has (p ∷ ps) n
  still_shown p ps n (q, among, called) = (q, Memᴰ.tail among, called)

  deref-eq-done : (o : Option (Partition G)) {p : Partition G} → deref o ≡ done p → o ≡ some p
  deref-eq-done none e = cc
  deref-eq-done (some q) e = ap some (done_injective e)

  -- What is shown for these names of a table: the partitions are of the table and asked for, and each
  -- name that the table has is shown.
  abbrev pub Shows : List Text → List (Partition G) → (Text → Bool) → List (Partition G) → Type 0
  Shows names listed has ps =
      All (IsAsked names listed) ps × All (λ n. (has n ≡ true) → Has ps n) names

  names_still_shown :
      (p : Partition G) (ps : List (Partition G)) (has : Text → Bool) (names : List Text)
      → All (λ n. (has n ≡ true) → Has ps n) names
      → All (λ n. (has n ≡ true) → Has (p ∷ ps) n) names
  names_still_shown p ps has [] h = tt
  names_still_shown p ps has (n ∷ names) (now, h) =
      ((λ e. still_shown p ps n (now e)), names_still_shown p ps has names h)

  Shows-cons :
      (n : Text) (names : List Text) (listed : List (Partition G)) (has : Text → Bool)
      (p : Partition G) (ps : List (Partition G))
      → Memᴰ p listed
      → name p ≡ n
      → Shows names listed has ps
      → Shows (n ∷ names) listed has (p ∷ ps)
  Shows-cons n names listed has p ps among called (asked, shows) = (
    ((among, Memᴰ.head called), wider_names n names listed ps asked),
    ((λ e. (p, Memᴰ.head refl, called)), names_still_shown p ps has names shows),
  )

  Shows-skip :
      (n : Text) (names : List Text) (listed : List (Partition G)) (has : Text → Bool)
      (ps : List (Partition G))
      → has n ≡ false
      → Shows names listed has ps
      → Shows (n ∷ names) listed has ps
  Shows-skip n names listed has ps no_partition (asked, shows) =
      (wider_names n names listed ps asked, ((λ e. absurd cc), shows))

  dynamic_sound :
      (n : Text) (d : Dynamic G) (p : Partition G)
      → Dynamic.partition n d ≡ some p
      → Memᴰ p d.local_partitions × (name p ≡ n)
  unfolding Dynamic.partition named
  dynamic_sound n d p found = (
    find_if-Memᴰ (named n) d.local_partitions found,
    text_eq_sound (name p) n (find_if_sound (named n) d.local_partitions p found),
  )

  for_each_for_dynamic-Shows :
      (names : List Text) (d : Dynamic G) {ps : List (Partition G)}
      → for_each_for_dynamic names d ≡ done ps
      → Shows names d.local_partitions (λ n. Dynamic.has_partition n d) ps
  unfolding for_each_for_dynamic
  for_each_for_dynamic-Shows [] d {ps} e =
      subst (Shows [] d.local_partitions (λ n. Dynamic.has_partition n d)) (done_injective e)
        (tt, tt)
  for_each_for_dynamic-Shows (n ∷ names) d {ps} e =
      let has = λ (m : Text). Dynamic.has_partition m d in
      elim (if-cases (Dynamic.has_partition n d) _ _ e) [
        | inr (no_partition, e1) ↦
            Shows-skip n names d.local_partitions has ps no_partition
              (for_each_for_dynamic-Shows names d e1)
        | inl (known, e1) ↦
            let (p, found, e2) = >>=-eq-done (deref (Dynamic.partition n d)) _ e1 in
            let (qs, others, e3) = >>=-eq-done (for_each_for_dynamic names d) _ e2 in
            let (among, called) = dynamic_sound n d p (deref-eq-done _ found) in
            subst (Shows (n ∷ names) d.local_partitions has) (done_injective e3) (
              Shows-cons n names d.local_partitions has p qs among called
                (for_each_for_dynamic-Shows names d others))
      ]

  for_each_for-Shows :
      {D : Disks G} (names : List Text) (t : Table G D) {ps : List (Partition G)}
      → All IsNormal t.local_partitions
      → for_each_for names t ≡ done ps
      → Shows names t.local_partitions (λ n. Query.has_partition n t) ps
  unfolding for_each_for
  for_each_for-Shows [] t {ps} normal e =
      subst (Shows [] t.local_partitions (λ n. Query.has_partition n t)) (done_injective e) (tt, tt)
  for_each_for-Shows (n ∷ names) t {ps} normal e =
      let has = λ (m : Text). Query.has_partition m t in
      elim (if-cases (Query.has_partition n t) _ _ e) [
        | inr (no_partition, e1) ↦
            Shows-skip n names t.local_partitions has ps no_partition
              (for_each_for-Shows names t normal e1)
        | inl (known, e1) ↦
            let (o, searched, e2) = >>=-eq-done (Query.partition n [] t) _ e1 in
            let (p, found, e3) = >>=-eq-done (deref o) _ e2 in
            let (qs, others, e4) = >>=-eq-done (for_each_for names t) _ e3 in
            let (among, called, of_table) =
              partition_sound n [] t p normal (searched ∙ ap done (deref-eq-done o found)) in
            subst (Shows (n ∷ names) t.local_partitions has) (done_injective e4) (
              Shows-cons n names t.local_partitions has p qs among called
                (for_each_for-Shows names t normal others))
      ]

  in_front : (p : Partition G) (ps qs : List (Partition G)) → Memᴰ p ps → Memᴰ p (ps ++ qs)
  in_front p [] qs m = absurd (Memᴰ.not-nil m)
  in_front p (x ∷ ps) qs m = elim (Memᴰ.cases_cons m) [
    | inl e ↦ Memᴰ.head e
    | inr rest ↦ Memᴰ.tail (in_front p ps qs rest)
  ]

  behind : (p : Partition G) (ps qs : List (Partition G)) → Memᴰ p qs → Memᴰ p (ps ++ qs)
  behind p [] qs m = m
  behind p (x ∷ ps) qs m = Memᴰ.tail (behind p ps qs m)

  wider_listed :
      (names : List Text) (listed more : List (Partition G)) (ps : List (Partition G))
      → ((p : Partition G) → Memᴰ p listed → Memᴰ p more)
      → All (IsAsked names listed) ps
      → All (IsAsked names more) ps
  wider_listed names listed more [] into h = tt
  wider_listed names listed more (p ∷ ps) into ((among, asked), h) =
      ((into p among, asked), wider_listed names listed more ps into h)

-- The four texts that stand for all partitions of one or both tables.
abbrev pub is_group : Text → Bool
is_group n =
    (text_eq n (codes "get-all") || text_eq n (codes "getvar-all"))
    || (text_eq n (codes "get-logicals") || text_eq n (codes "get-physicals"))

module _ {G : Gpt} {D : Disks G} (t : Table G D) (d : Dynamic G) where
  each_shown :
      (names : List Text) (ps qs : List (Partition G))
      → all_exist names t d ≡ true
      → All (λ n. (Query.has_partition n t ≡ true) → Has ps n) names
      → All (λ n. (Dynamic.has_partition n d ≡ true) → Has qs n) names
      → All (Has (ps ++ qs)) names
  unfolding all_exist
  each_shown [] ps qs e h k = tt
  each_shown (n ∷ names) ps qs e (now, h) (now', k) =
      let both =
        &&-true (Query.has_partition n t || Dynamic.has_partition n d) (all_exist names t d) e in
      (
        elim (Bool-cases (Query.has_partition n t)) [
          | inl has ↦ let (p, among, called) = now has in (p, in_front p ps qs among, called)
          | inr not_here ↦
              let (p, among, called) = now' (ground arith) in (p, behind p ps qs among, called)
        ],
        each_shown names ps qs both.1 h k,
      )

  -- Where the last name is none of the four that stand for groups, and the classic table has normal
  -- partitions: when partitions are shown, each is of one of the tables and has one of the names, and
  -- each name is that of a partition that is shown.
  pub shown_names :
      (names : List Text) (last : Text) (ps : List (Partition G))
      → All IsNormal t.local_partitions
      → back names ≡ done last
      → is_group last ≡ false
      → shown names t d ≡ done ps
      → All (IsAsked names (t.local_partitions ++ d.local_partitions)) ps × All (Has ps) names
  unfolding shown
  shown_names names last ps normal ends other e =
      let (l, ran, e1) = >>=-eq-done (back names) _ e in
      let same : l ≡ last = done_injective (sym ran ∙ ends) in
      let no_group : is_group l ≡ false = ap is_group same ∙ other in
      elim (if-cases (text_eq l (codes "get-all") || text_eq l (codes "getvar-all")) _ _ e1) [
        | inl (all, e2) ↦ absurd (ground (arith, no_group))
        | inr (not_all, e2) ↦ elim (if-cases (text_eq l (codes "get-logicals")) _ _ e2) [
          | inl (logicals, e3) ↦ absurd (ground (arith, no_group))
          | inr (not_logicals, e3) ↦ elim (if-cases (text_eq l (codes "get-physicals")) _ _ e3) [
            | inl (physicals, e4) ↦ absurd (ground (arith, no_group))
            | inr (not_physicals, e4) ↦ elim (if-cases (all_exist names t d) _ _ e4) [
              | inr (missing, thrown) ↦ absurd cc
              | inl (exist, e5) ↦ by_name exist e5
            ]
          ]
        ]
      ]
    where
      by_name :
          all_exist names t d ≡ true
          → (for_each_for names t >>= λ xs. for_each_for_dynamic names d >>= λ ys. done (xs ++ ys))
            ≡ done ps
          → All (IsAsked names (t.local_partitions ++ d.local_partitions)) ps × All (Has ps) names
      by_name exist e5 =
          let (xs, ran_as, e6) = >>=-eq-done (for_each_for names t) _ e5 in
          let (ys, ran_bs, e7) = >>=-eq-done (for_each_for_dynamic names d) _ e6 in
          let (asked_as, has_as) = for_each_for-Shows names t normal ran_as in
          let (asked_bs, has_bs) = for_each_for_dynamic-Shows names d ran_bs in
          let more = t.local_partitions ++ d.local_partitions in
          subst (λ qs. All (IsAsked names more) qs × All (Has qs) names) (done_injective e7)
            (
              All-append (IsAsked names more) xs ys
                  (wider_listed names t.local_partitions more xs
                    (λ p m. in_front p t.local_partitions d.local_partitions m) asked_as)
                  (wider_listed names d.local_partitions more ys
                    (λ p m. behind p t.local_partitions d.local_partitions m) asked_bs),
              each_shown names xs ys exist has_as has_bs,
            )
