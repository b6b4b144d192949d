-- ===== src/Manager/Main/Success.antt =====
-- When the program ends with 0 (src/Main.cpp).
use pmt_renovated.Base.{
  ℕ, ◌≡◌, ◌≢◌, ◌↔◌, refl, sym, ap, ◌∙◌, subst, Bool, true, false, not, ◌&&◌, ◌⊎◌, inl, inr, Option,
  none, some, if◌then◌else◌, [], is_empty, arith, if-cases, if_false, Option-cases, find_if, codes,
}
use pmt_renovated.Helper.Error.{Outcome, done, throw_new}
use pmt_renovated.Helper.Error.Laws.{done_injective, >>=-eq-done}
use pmt_renovated.PartitionMap.Partition.{Gpt}
use pmt_renovated.PartitionMap.Table.{Disks}
use pmt_renovated.PartitionMap.Table.Query.{valid, is_has_super_partition}
use pmt_renovated.Manager.Plugins.{Plugin, Manager, instances, get_used, run_used, first_of}
use pmt_renovated.Manager.Plugins.Used.{FirstOf, find_if-FirstOf, FirstOf-find_if, first_of_lem}
use pmt_renovated.Manager.Main.{
  Situation, argc_too_small, table_names_empty, exit_code, checked_body, main_body,
}
use pmt_renovated.Manager.Main.Laws.{
  IsSound, HasSuper, Enough, not_empty_iff, valid_iff, super_iff, argc_too_small_iff,
}

module _ {W : Type 0} (m : Manager W) (w : W) where
  -- The first plugin that is used has a name, and its run returns true.
  abbrev pub Runs : Type 0
  Runs =
      (p : Plugin W) × FirstOf (λ q. q.used w) (instances m) p
      × (p.get_name ≢ [])
      × (w' : W) × (p.run w ≡ done (true, w'))

  abbrev code_of : Bool → Outcome ℕ
  code_of ok = done (if ok then 0 else 1)

  abbrev success : Outcome ℕ
  success = done 0

  succeeded : (ok : Bool) → code_of ok ≡ success → ok ≡ true
  succeeded true h = refl
  succeeded false h = absurd (omega (arith, done_injective h))

  abbrev used_of : Option (Plugin W)
  used_of = first_of (λ p. p.instance_of.used w) (λ p. p.used w) m

  get_used-none : used_of ≡ none → get_used m w ≡ []
  unfolding get_used
  get_used-none nothing = rw (get_used, nothing) refl

  get_used-found : (p : Plugin W) → used_of ≡ some p → get_used m w ≡ p.get_name
  unfolding get_used
  get_used-found p found = rw (get_used, found) refl

  run_used-found : (p : Plugin W) → used_of ≡ some p → run_used m w ≡ p.run w
  unfolding run_used
  run_used-found p found = rw found refl

  ended-Runs : is_empty (get_used m w) ≡ false → exit_code (run_used m w) ≡ done 0 → Runs
  unfolding exit_code
  ended-Runs named ended = elim (Option-cases used_of) [
    | inl nothing ↦ absurd (cc (sym (ap is_empty (get_used-none nothing)) ∙ named))
    | inr (p, found) ↦
        let ((ok, w'), ran, code) = >>=-eq-done (run_used m w) _ ended in
        (
          p,
          find_if-FirstOf (λ q. q.used w) (instances m) p
              (sym (first_of_lem (λ q. q.used w) m) ∙ found),
          (not_empty_iff p.get_name).0 (sym (ap is_empty (get_used-found p found)) ∙ named),
          w',
          sym (run_used-found p found) ∙ ran ∙ ap (λ b. done (b, w')) (succeeded ok code),
        )
  ]

  Runs-ended : Runs → (is_empty (get_used m w) ≡ false) × (exit_code (run_used m w) ≡ done 0)
  unfolding exit_code
  Runs-ended (p, (front, back, parts, none_there, hit), named, w', ran) =
      let found : used_of ≡ some p =
        first_of_lem (λ q. q.used w) m
        ∙ subst (λ l. find_if (λ q. q.used w) l ≡ some p) (sym parts)
            (FirstOf-find_if (λ q. q.used w) front back p none_there hit) in
      (
        ap is_empty (get_used-found p found) ∙ (not_empty_iff p.get_name).1 named,
        ap exit_code (run_used-found p found ∙ ran),
      )

by_cases :
    (license version root : Bool) (rest : Outcome ℕ)
    → (license ≡ true) ⊎ ((version ≡ true) ⊎ ((root ≡ true) × (rest ≡ done 0)))
    → (if license
        then done 0
        else if version
        then done 0
        else if not root
        then throw_new (codes "This program requires super-user privileges.")
        else rest)
      ≡ done 0
by_cases true version root rest cases = refl
by_cases false true root rest cases = refl
by_cases false false root rest (inl license) = cc
by_cases false false root rest (inr (inl version)) = cc
by_cases false false true rest (inr (inr (privileged, ended))) = ended
by_cases false false false rest (inr (inr (privileged, ended))) = cc

module _ {G : Gpt} {D : Disks G} {W : Type 0} where
  -- The process may work, the tables are fit for it, and the used plugin succeeds.
  abbrev pub Works : Situation G D W → Type 0
  Works s =
      (s.has_root_privileges ≡ true)
      × (s.tables.local_table_names ≢ [])
      × (IsSound s.tables ⊎ (s.force_process ≡ true))
      × ((s.on_logical ≡ false) ⊎ HasSuper s.tables)
      × Runs s.manager s.process

  checked-Works :
      (s : Situation G D W) → s.has_root_privileges ≡ true → checked_body s ≡ done 0 → Works s
  unfolding checked_body table_names_empty
  checked-Works s root e = elim (if-cases (is_empty s.tables.local_table_names) _ _ e) [
    | inl (no_table, thrown) ↦ absurd cc
    | inr (tables, e1) ↦ elim (if-cases (not (valid s.tables) && not s.force_process) _ _ e1) [
      | inl (problem, thrown) ↦ absurd cc
      | inr (sound, e2) ↦
          elim (if-cases (s.on_logical && not (is_has_super_partition s.tables)) _ _ e2) [
            | inl (no_super, thrown) ↦ absurd cc
            | inr (fitting, e3) ↦ elim (if-cases (is_empty (get_used s.manager s.process)) _ _ e3) [
              | inl (unknown, thrown) ↦ absurd cc
              | inr (named, e4) ↦ (
                root,
                (not_empty_iff s.tables.local_table_names).0 tables,
                sound_or_forced (valid s.tables) s.force_process sound (valid_iff s.tables).0,
                plain_or_super s.on_logical (is_has_super_partition s.tables) fitting
                    (super_iff s.tables).0,
                ended-Runs s.manager s.process named e4,
              )
            ]
          ]
    ]
  ]
    where
      sound_or_forced :
          {A : Type 0} (a b : Bool) → (not a && not b) ≡ false → (a ≡ true → A) → A ⊎ (b ≡ true)
      sound_or_forced true b e f = inl (f refl)
      sound_or_forced false b e f = inr (ground arith)

      plain_or_super :
          {A : Type 0} (a b : Bool) → (a && not b) ≡ false → (b ≡ true → A) → (a ≡ false) ⊎ A
      plain_or_super a true e f = inr (f refl)
      plain_or_super a false e f = inl (ground arith)

  Works-checked : (s : Situation G D W) → Works s → checked_body s ≡ done 0
  unfolding checked_body table_names_empty
  Works-checked s (root, tables, sound, fitting, runs) =
      let (named, ended) = Runs-ended s.manager s.process runs in
      let no_problem : (not (valid s.tables) && not s.force_process) ≡ false = elim sound [
        | inl all ↦ rw ((valid_iff s.tables).1 all) refl
        | inr forced ↦ ground arith
      ] in
      let no_lack : (s.on_logical && not (is_has_super_partition s.tables)) ≡ false = elim fitting [
        | inl plain ↦ rw plain refl
        | inr there ↦ let found = (super_iff s.tables).1 there in ground arith
      ] in
      rw ((not_empty_iff s.tables.local_table_names).1 tables, no_problem, no_lack, named) ended

  -- The work of `main` behind `parse` ends with 0 and no error exactly when there are at least two
  -- arguments, not three with a plugin or a directory of plugins among the options, and either the licence
  -- or the version is asked for, or: the process has the privileges, there is a table, the data of all
  -- tables is sound or the process is forced, there is a super partition if logical partitions are asked
  -- for, and the first used plugin, of the loaded and then the built-in ones, has a name and its run
  -- returns true.
  pub main_body_iff :
      (s : Situation G D W)
      → (main_body s ≡ done 0)
        ↔ (Enough s × ((s.view_license ≡ true) ⊎ ((s.view_version ≡ true) ⊎ Works s)))
  unfolding main_body
  main_body_iff s = (
    λ e. elim (if-cases (argc_too_small s) _ _ e) [
      | inl (few, stopped) ↦ absurd (omega (arith, done_injective stopped))
      | inr (enough, e1) ↦ (
        (argc_too_small_iff s).0 enough,
        elim (if-cases s.view_license _ _ e1) [
          | inl (license, shown) ↦ inl license
          | inr (no_license, e2) ↦ elim (if-cases s.view_version _ _ e2) [
            | inl (version, shown) ↦ inr (inl version)
            | inr (no_version, e3) ↦ elim (if-cases (not s.has_root_privileges) _ _ e3) [
              | inl (no_root, thrown) ↦ absurd cc
              | inr (root, e4) ↦ inr (inr (checked-Works s (ground arith) e4))
            ]
          ]
        ],
      )
    ],
    λ (enough, cases).
        if_false {b = argc_too_small s} _ _ ((argc_too_small_iff s).1 enough)
        ∙ by_cases s.view_license s.view_version s.has_root_privileges (checked_body s)
            (elim cases [
              | inl license ↦ inl license
              | inr (inl version) ↦ inr (inl version)
              | inr (inr works) ↦ inr (inr (works.0, Works-checked s works))
            ]),
  )
