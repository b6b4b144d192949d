-- ===== src/Plugins/Detect/Run.antt =====
-- Which map the type plugin searches, what it leaves of the maps, and what it finds
-- (src/plugins/TypePlugin.cpp).
use pmt_renovated.Base.{
  ℕ, suc, ◌≤◌, ◌<◌, ◌≡◌, refl, ap, ap₂, sym, subst, ◌↔◌, Bool, true, false, ◌&&◌, List, [], ◌∷◌,
  ◌++◌, some, Text, ltb, leb, leb→le, ◌==◌, arith, All, All-append, &&-true, if◌then◌else◌,
}
use pmt_renovated.Helper.Error.{done}
use pmt_renovated.Helper.Error.Laws.{done_injective}
use pmt_renovated.PartitionMap.Partition.{Gpt}
use pmt_renovated.PartitionMap.Table.{Disks}
use pmt_renovated.Plugins.Work.{Flags}
use pmt_renovated.Plugins.Work.Laws.{after-eq-done, some_injective}
use pmt_renovated.Plugins.Detect.{
  MagicMap, MagicMaps, Options, Reads, insert, has_key, merge, chosen, identify_all, run,
}
use pmt_renovated.Plugins.Detect.Laws.{
  AllIdentified, identify_all-AllIdentified, AllIdentified-identify_all,
}

-- The keys ascend, from a lower bound on.
abbrev pub is_ascending : ℕ → MagicMap → Bool
is_ascending low [] = true
is_ascending low (e ∷ m) = leb low e.0 && is_ascending (suc e.0) m

abbrev Below : ℕ → MagicMap → Type 0
Below high m = All (λ (x : ℕ × Text). x.0 < high) m

insert-last : (e : ℕ × Text) (m : MagicMap) → Below e.0 m → insert e m ≡ m ++ (e ∷ [])
unfolding insert
insert-last e [] below = refl
insert-last e (x ∷ m) (here, below) =
    let other : (e.0 == x.0) ≡ false = ground arith in
    let behind : ltb e.0 x.0 ≡ false = ground arith in
    rw (other, behind) (ap (λ l. x ∷ l) (insert-last e m below))

has_key-absent : (k : ℕ) (m : MagicMap) → Below k m → has_key k m ≡ false
unfolding has_key
has_key-absent k [] below = refl
has_key-absent k (x ∷ m) (here, below) =
    let other : (k == x.0) ≡ false = ground arith in rw other (has_key-absent k m below)

Below-le : (low high : ℕ) (m : MagicMap) → low ≤ high → Below low m → Below high m
Below-le low high [] le below = tt
Below-le low high (x ∷ m) le (here, below) = (omega arith, Below-le low high m le below)

++_one : (m : MagicMap) (e : ℕ × Text) (n : MagicMap) → (m ++ (e ∷ [])) ++ n ≡ m ++ (e ∷ n)
++_one [] e n = refl
++_one (x ∷ m) e n = ap (λ l. x ∷ l) (++_one m e n)

++_none : (m : MagicMap) → m ++ [] ≡ m
++_none [] = refl
++_none (x ∷ m) = ap (λ l. x ∷ l) (++_none m)

-- Into a map with smaller keys, a merge moves everything.
merge-append :
    (low : ℕ) (target source : MagicMap)
    → Below low target
    → is_ascending low source ≡ true
    → merge target source ≡ (target ++ source, [])
unfolding merge
merge-append low target [] below sorted = ap₂ (λ a b. (a, b)) (sym (++_none target)) refl
merge-append low target (e ∷ source) below sorted =
    let (first, rest) = &&-true (leb low e.0) (is_ascending (suc e.0) source) sorted in
    let least = leb→le low e.0 first in
    let smaller = Below-le low e.0 target least below in
    let longer =
      All-append (λ (x : ℕ × Text). x.0 < suc e.0) target (e ∷ [])
        (Below-le e.0 (suc e.0) target (omega arith) smaller) (omega arith, tt) in
    rw
      (
        insert-last e target smaller,
        merge-append (suc e.0) (target ++ (e ∷ [])) source longer rest,
        has_key-absent e.0 target smaller,
      )
      (ap (λ l. (l, [])) (++_one target e source))

-- The map that the options ask for: that of Android if its flag is given, or else that of the file
-- systems if its flag is given, or else the one of all.
abbrev pub asked_for : Options → MagicMaps → MagicMap
asked_for o m =
    if o.only_check_android_magics
    then m.android
    else if o.only_check_file_system_magics
    then m.file_system
    else m.all

-- The three maps with that one emptied.
abbrev pub emptied : Options → MagicMaps → MagicMaps
emptied o m =
    if o.only_check_android_magics
    then record m { android = [] }
    else if o.only_check_file_system_magics
    then record m { file_system = [] }
    else record m { all = [] }

-- The keys of each map ascend.
abbrev pub IsSorted : MagicMaps → Type 0
IsSorted m =
    (is_ascending 0 m.android ≡ true)
    × (is_ascending 0 m.file_system ≡ true)
    × (is_ascending 0 m.all ≡ true)

chosen_lem : (o : Options) (m : MagicMaps) → IsSorted m → chosen o m ≡ (asked_for o m, emptied o m)
unfolding chosen
chosen_lem o m (android, file_system, all) =
    let moved_android = merge-append 0 [] m.android tt android in
    let moved_file_system = merge-append 0 [] m.file_system tt file_system in
    let moved_all = merge-append 0 [] m.all tt all in
    rw (moved_android, moved_file_system, moved_all)
      (branches o.only_check_android_magics o.only_check_file_system_magics m.android m.file_system
        m.all (record m { android = [] }) (record m { file_system = [] }) (record m { all = [] }))
  where
    pair : MagicMap → MagicMaps → MagicMap × MagicMaps
    pair x u = (x, u)

    branches :
        (a b : Bool) (x y z : MagicMap) (u v w : MagicMaps)
        → (if a then pair x u else if b then pair y v else pair z w)
          ≡ pair (if a then x else if b then y else z) (if a then u else if b then v else w)
    branches true b x y z u v w = refl
    branches false true x y z u v w = refl
    branches false false x y z u v w = refl

module _ {G : Gpt} {D : Disks G} where
  -- Where the keys of the maps ascend: the type plugin returns true with these entries, and leaves these
  -- maps, exactly when for each content, which is known as a partition, by its table or as a file, the
  -- entry is the first one of the map that the options ask for whose magic number is found in the file of
  -- the content, and the maps are those from before with the searched one emptied.
  pub run_identifies :
      (f : Flags G D) (r : Reads) (o : Options) (m left : MagicMaps) (es : List (ℕ × Text))
      → IsSorted m
      → (run f r o m ≡ some (done (es, left)))
        ↔ (AllIdentified f r o.buffer_size (asked_for o m) o.contents es × (left ≡ emptied o m))
  unfolding run
  run_identifies f r o m left es sorted =
      let maps = asked_for o m in
      let which = chosen_lem o m sorted in
      (
        (λ ran.
            let (found, all, last) =
              after-eq-done (identify_all f r o.buffer_size maps o.contents) _ (rw which at ran) in
            let same = done_injective (some_injective last) in
            (
              subst (AllIdentified f r o.buffer_size maps o.contents) (ap (λ x. x.0) same)
                  (identify_all-AllIdentified f r o.buffer_size maps o.contents found all),
              sym (ap (λ x. x.1) same),
            )),
        (λ (all, kept).
            rw (which, AllIdentified-identify_all f r o.buffer_size maps o.contents es all, kept)
              refl),
      )
