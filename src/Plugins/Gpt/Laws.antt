-- ===== src/Plugins/Gpt/Laws.antt =====
-- What the subcommands of the gpt plugin do to the tables that are named (src/plugins/GptPlugin.cpp).
use pmt_renovated.Base.{
  ◌≡◌, refl, ap, ap₂, ◌∙◌, sym, subst, ◌⊎◌, inl, inr, Bool, true, false, not, ◌&&◌, ◌||◌, some,
  List, [], ◌∷◌, ◌++◌, Text, codes, text_eq, text_eq_refl, is_empty, length, ◌==◌, arith,
  if◌then◌else◌, if_true, if_false, All,
}
use pmt_renovated.Helper.Error.{Outcome, done, threw, escaped, exited, undefined}
use pmt_renovated.PartitionMap.Partition.{Gpt}
use pmt_renovated.PartitionMap.Table.{Disks, Table}
use pmt_renovated.PartitionMap.Table.Query.{has_table, gpt_data_of}
use pmt_renovated.Plugins.Work.{in_directory}
use pmt_renovated.Plugins.Work.Laws.{file_in, in_directory_lem}
use pmt_renovated.Plugins.Gpt.{
  Arguments, Host, Event, saved, is_saved, Call, read_all, element, rest_of, then_, ends,
  spawn_error, backup_loop, backup_one, backup_gpt_table, read_all_handle, all_known, run, run_used,
  restore_table, restore_gpt_table, restore_loop, mismatch,
}

append_one :
    (xs : List Event) (x : Event) (ys : List Event) → (xs ++ (x ∷ [])) ++ ys ≡ xs ++ (x ∷ ys)
append_one [] x ys = refl
append_one (z ∷ xs) x ys = ap (λ zs. z ∷ zs) (append_one xs x ys)

append_none : (xs : List Event) → xs ≡ xs ++ []
append_none [] = refl
append_none (x ∷ xs) = ap (λ ys. x ∷ ys) (append_none xs)

module _ {G : Gpt} {D : Disks G} (host : Host D.Data) (a : Arguments) where
  then_-eq-done :
      {A : Type 0} (m : Outcome A) (t : Table G D) (events : List Event) (f : A → Call G D)
      {b : Bool}
      → (then_ host a m t events f).outcome ≡ done b
      → (x : A) × (m ≡ done x) × (then_ host a m t events f ≡ f x)
  then_-eq-done (done x) t events f e = (x, refl, refl)
  then_-eq-done (threw x) t events f e = cc
  then_-eq-done escaped t events f e = cc
  then_-eq-done (exited n) t events f e = cc
  then_-eq-done undefined t events f e = cc

  if-eq-done :
      (b : Bool) (x y : Call G D) {v : Bool}
      → (if b then x else y).outcome ≡ done v
      → ((b ≡ true) × (x.outcome ≡ done v) × ((if b then x else y) ≡ x))
        ⊎ ((b ≡ false) × (y.outcome ≡ done v) × ((if b then x else y) ≡ y))
  if-eq-done true x y e = inl (refl, e, refl)
  if-eq-done false x y e = inr (refl, e, refl)

  -- This table is saved in this file, which was not there before, nor was it saved earlier.
  abbrev pub Saves : Table G D → Bool → Text → List Text → List Event → Text → Type 0
  Saves t given n files before output =
      (file : Text) × ((if given then element files else done (n ++ codes ".gpt")) ≡ done file)
      × (output ≡ file_in a.directory file)
      × (host.file_exists output ≡ false)
      × (is_saved output before ≡ false)
      × (gpt : D.Data) × (gpt_data_of n t ≡ done gpt)
      × (host.save_backup gpt output ≡ true)

  -- Behind these earlier events, the later ones save the named tables that exist, each once and in their
  -- order, in the file of the same place or the one named after the table.
  abbrev pub Backs : Table G D → Bool → List Text → List Text → List Event → List Event → Type 0
  Backs t given [] files before es = es ≡ []
  Backs t given (n ∷ names) files before es =
      ((has_table n t ≡ false) × Backs t given names (rest_of files) before es)
      ⊎ ((has_table n t ≡ true)
          × (output : Text) × Saves t given n files before output
          × (later : List Event) × (es ≡ saved n output ∷ later)
          × Backs t given names (rest_of files) (before ++ (saved n output ∷ [])) later)

  backup_one-Saves :
      (given : Bool) (n : Text) (files : List Text) (t : Table G D) (events : List Event)
      (next : List Event → Call G D)
      → a.force_process ≡ false
      → (backup_one host a given n files t events next).outcome ≡ done true
      → (output : Text) × Saves t given n files events output
        × (backup_one host a given n files t events next ≡ next (events ++ (saved n output ∷ [])))
        × ((next (events ++ (saved n output ∷ []))).outcome ≡ done true)
  unfolding backup_one spawn_error
  backup_one-Saves given n files t events next unforced e =
      let (file, is_file, s1) =
        then_-eq-done (if given then element files else done (n ++ codes ".gpt")) t events _ e in
      let output = in_directory a.directory file in
      let e1 = ap outcome (sym s1) ∙ e in
      elim (if-eq-done ((host.file_exists output || is_saved output events) && not a.force_process)
        _ _ e1) [
          | inl (taken, thrown, s2) ↦ absurd cc
          | inr (free, e2, s2) ↦
              let (gpt, is_gpt, s3) = then_-eq-done (gpt_data_of n t) t events _ e2 in
              let e3 = ap outcome (sym s3) ∙ e2 in
              elim (if-eq-done (host.save_backup gpt output) _ _ e3) [
                | inr (bad, stopped, s4) ↦ absurd cc
                | inl (good, e4, s4) ↦ (
                  output,
                  (
                    file,
                    is_file,
                    in_directory_lem a.directory file,
                    ground arith,
                    ground arith,
                    gpt,
                    is_gpt,
                    good,
                  ),
                  s1 ∙ s2 ∙ s3 ∙ s4,
                  e4,
                )
              ]
        ]
    where
      outcome : Call G D → Outcome Bool
      outcome c = c.outcome

  backup_loop-Backs :
      (given : Bool) (names files : List Text) (t : Table G D) (events : List Event)
      → a.force_process ≡ false
      → (backup_loop host a given names files t events).outcome ≡ done true
      → (es : List Event) × ((backup_loop host a given names files t events).events ≡ events ++ es)
        × Backs t given names files events es
  unfolding backup_loop
  backup_loop-Backs given [] files t events unforced e = ([], append_none events, refl)
  backup_loop-Backs given (n ∷ names) files t events unforced e =
      elim (if-eq-done (has_table n t) _ _ e) [
        | inr (no_table, e1, skips) ↦
            let (es, same, backs) =
              backup_loop-Backs given names (rest_of files) t events unforced e1 in
            (es, ap happened skips ∙ same, inl (no_table, backs))
        | inl (has, e1, goes) ↦
            let (output, saves, went, e2) =
              backup_one-Saves given n files t events
                (backup_loop host a given names (rest_of files) t) unforced e1 in
            let (es, same, backs) =
              backup_loop-Backs given names (rest_of files) t (events ++ (saved n output ∷ []))
                unforced e2 in
            (
              saved n output ∷ es,
              ap happened (goes ∙ went) ∙ same ∙ append_one events (saved n output) es,
              inr (has, output, saves, es, refl, backs),
            )
      ]
    where
      happened : Call G D → List Event
      happened c = c.events

  -- Without force, a backup that returns true has saved each named table that exists, once and in the
  -- order of the names, where `read-all` in the first place names all tables; the file of each is the
  -- one of the same place, or the one named after the table when no files were given, in the given
  -- directory, was not there before, and is not one that this backup has saved already.
  pub backup_gpt_table_saves :
      (t : Table G D)
      → a.force_process ≡ false
      → (backup_gpt_table host a t).outcome ≡ done true
      → (names : List Text) × (read_all_handle a.table_names t.local_table_names ≡ done names)
        × Backs t
            (not (is_empty a.file_list))
            names
            a.file_list
            []
            (backup_gpt_table host a t).events
  unfolding backup_gpt_table
  backup_gpt_table_saves t unforced e = elim (if-eq-done (mismatch a) _ _ e) [
    | inl (wrong, thrown, s1) ↦ absurd cc
    | inr (right, e1, s1) ↦
        let (names, handled, s2) =
          then_-eq-done (read_all_handle a.table_names t.local_table_names) t [] _ e1 in
        let (es, same, backs) =
          backup_loop-Backs (not (is_empty a.file_list)) names a.file_list t [] unforced
            (ap outcome (sym s2) ∙ e1) in
        (
          names,
          handled,
          subst (λ evs. Backs t (not (is_empty a.file_list)) names a.file_list [] evs)
              (sym (ap happened (s1 ∙ s2) ∙ same)) backs,
        )
  ]
    where
      outcome : Call G D → Outcome Bool
      outcome c = c.outcome

      happened : Call G D → List Event
      happened c = c.events

  abbrev pub IsKnown : Table G D → Text → Type 0
  IsKnown t n = (has_table n t ≡ true) × (text_eq n read_all ≡ false)

  unknown_found :
      (t : Table G D) (front : List Text) (n : Text) (names : List Text)
      → All (IsKnown t) front
      → text_eq n read_all ≡ false
      → has_table n t ≡ false
      → all_known host a (front ++ (n ∷ names)) t ≡ false
  unfolding all_known
  unknown_found t [] n names known other missing = if_false _ _ other ∙ if_false _ _ missing
  unknown_found t (m ∷ front) n names ((has, not_all), known) other missing =
      if_false _ _ not_all ∙ if_true _ _ has ∙ unknown_found t front n names known other missing

  -- With a name that no table has, in front of which there are tables alone, the plugin does nothing
  -- at all, for none of the names; it returns true if the process is forced, and false otherwise.
  pub run_unknown :
      (t : Table G D) (front : List Text) (n : Text) (names : List Text)
      → a.table_names ≡ front ++ (n ∷ names)
      → All (IsKnown t) front
      → text_eq n read_all ≡ false
      → has_table n t ≡ false
      → run host a t ≡ record { outcome = done a.force_process; table = t; events = [] }
  unfolding run spawn_error
  run_unknown t front n names given known other missing =
      if_false _ _
        (ap (λ ns. all_known host a ns t) given ∙ unknown_found t front n names known other missing)

  -- A restoration of `read-all` from a file returns true and restores nothing.
  pub restore_read_all :
      (t : Table G D) (file : Text)
      → a.table_names ≡ read_all ∷ []
      → a.file_list ≡ file ∷ []
      → a.used ≡ some restore_table
      → has_table read_all t ≡ false
      → run host a t ≡ record { outcome = done true; table = t; events = [] }
  unfolding run run_used restore_gpt_table
  restore_read_all t file names files used no_table =
      let fits : mismatch a ≡ false = mismatch_one file names files in
      let nothing : restore_loop host a (read_all ∷ []) (file ∷ []) t []
          ≡ ends host a (done true) t [] =
        skips file no_table in
      if_true _ _ (ap (λ ns. all_known host a ns t) names ∙ known_all t)
      ∙ ap (λ u. run_used host a u t) used
      ∙ if_false _ _ fits
      ∙ ap₂ (λ ns fs. restore_loop host a ns fs t []) names files
      ∙ nothing
    where
      mismatch_one :
          (file : Text)
          → a.table_names ≡ read_all ∷ []
          → a.file_list ≡ file ∷ []
          → mismatch a ≡ false
      mismatch_one file names files =
          ap₂ (λ ns fs. not (is_empty fs) && not (length ns == length fs)) names files

      known_all : (t : Table G D) → all_known host a (read_all ∷ []) t ≡ true
      known_all t = if_true _ _ (text_eq_refl read_all)

      skips :
          (file : Text)
          → has_table read_all t ≡ false
          → restore_loop host a (read_all ∷ []) (file ∷ []) t [] ≡ ends host a (done true) t []
      skips file no_table = if_true _ _ (ap not no_table)
