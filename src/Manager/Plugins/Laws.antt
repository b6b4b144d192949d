-- ===== src/Manager/Plugins/Laws.antt =====
-- The names of loaded plugins, and which plugin is found (Plugin.hpp).
use pmt_renovated.Base.{
  ◌≡◌, ◌↔◌, refl, sym, ap, ◌∙◌, subst, inl, inr, ◌⊎◌, Bool, true, false, ◌||◌, Option, none, some,
  List, [], ◌∷◌, ◌++◌, Text, arith, text_eq, text_eq_sound, text_eq_refl, if◌then◌else◌, if-cases,
  if_true, Bool-cases, Option-cases, any, find_if, find_if_sound, find_if-any, All, All-append,
}
use pmt_renovated.Helper.Error.{done}
use pmt_renovated.Helper.Error.Laws.{>>=-eq-done}
use pmt_renovated.PartitionMap.Table.Query.Laws.{done_injective}
use pmt_renovated.Manager.Plugins.{
  Plugin, Loaded, Manager, Library, no_library, no_create, creates, already_exists, load_plugin,
  find_loaded, first_of, get_plugin,
}

text_eq-sym : (s t : Text) → text_eq s t ≡ false → text_eq t s ≡ false
text_eq-sym s t h = elim (Bool-cases (text_eq t s)) [
  | inr other ↦ other
  | inl same ↦
      absurd (cc (sym (text_eq_refl s) ∙ ap (text_eq s) (sym (text_eq_sound t s same)) ∙ h))
]

module _ {W : Type 0} where
  -- The name of an entry is that of its instance, and no entry in front of it has it.
  abbrev pub Named : Loaded W → Type 0
  Named p = p.name ≡ p.instance_of.get_name

  abbrev pub Distinct : List (Loaded W) → Type 0
  Distinct [] = Unit
  Distinct (p ∷ ps) = (any (λ q. text_eq q.name p.name) ps ≡ false) × Distinct ps

  -- The same of the names of built-in plugins.
  abbrev pub DistinctBuiltin : List (Plugin W) → Type 0
  DistinctBuiltin [] = Unit
  DistinctBuiltin (p ∷ ps) =
      (any (λ q. text_eq q.get_name p.get_name) ps ≡ false) × DistinctBuiltin ps

  -- No built-in plugin has the name of the entry.
  abbrev pub NotBuiltin : List (Plugin W) → Loaded W → Type 0
  NotBuiltin builtin p = any (λ q. text_eq q.get_name p.name) builtin ≡ false

  -- The entries are named after their instances, and no two plugins, loaded or built in, have one name.
  abbrev pub IsWellFormed : Manager W → Type 0
  IsWellFormed m =
      All Named m.plugins
      × Distinct m.plugins
      × DistinctBuiltin m.builtin_plugins
      × All (NotBuiltin m.builtin_plugins) m.plugins

  any-snoc :
      (f : Loaded W → Bool) (ps : List (Loaded W)) (p : Loaded W)
      → any f ps ≡ false
      → f p ≡ false
      → any f (ps ++ (p ∷ [])) ≡ false
  unfolding any
  any-snoc f [] p h k = rw k refl
  any-snoc f (q ∷ ps) p h k = ground (arith, any-snoc f ps p)

  any-last :
      (f : Loaded W → Bool) (ps : List (Loaded W)) (p : Loaded W)
      → f p ≡ true
      → any f (ps ++ (p ∷ [])) ≡ true
  unfolding any
  any-last f [] p k = rw k refl
  any-last f (q ∷ ps) p k = ground (arith, any-last f ps p)

  Distinct-snoc :
      (ps : List (Loaded W)) (p : Loaded W)
      → Distinct ps
      → any (λ q. text_eq q.name p.name) ps ≡ false
      → Distinct (ps ++ (p ∷ []))
  unfolding any
  Distinct-snoc [] p distinct new = (refl, tt)
  Distinct-snoc (q ∷ ps) p (first, rest) new = (
    any-snoc (λ r. text_eq r.name q.name) ps p first (text_eq-sym q.name p.name (ground arith)),
    Distinct-snoc ps p rest (ground arith),
  )

  -- What a successful call leaves: the manager as it was, or with the new plugin behind the others.
  load_plugin_cases :
      (library : Text → Library W) (path : Text) (m m' : Manager W) (w w' : W) (ok : Bool)
      → load_plugin library path m w ≡ done (ok, m', w')
      → ((ok ≡ false) × (m' ≡ m))
        ⊎ ((p : Plugin W) × (library path ≡ creates p)
            × (already_exists p.get_name m ≡ false)
            × (m' ≡ record m {
              plugins = m.plugins ++ (record { name = p.get_name; instance_of = p } ∷ []);
            }))
  unfolding load_plugin
  load_plugin_cases library path m m' w w' ok e = by_library (library path) refl
    where
      by_library :
          (l : Library W)
          → library path ≡ l
          → ((ok ≡ false) × (m' ≡ m))
            ⊎ ((p : Plugin W) × (library path ≡ creates p)
                × (already_exists p.get_name m ≡ false)
                × (m' ≡ record m {
                  plugins = m.plugins ++ (record { name = p.get_name; instance_of = p } ∷ []);
                }))
      by_library no_library found = absurd (cc (rw (load_plugin, found) at e))
      by_library no_create found = absurd (cc (rw (load_plugin, found) at e))
      by_library (creates p) found =
          elim (if-cases (already_exists p.get_name m) _ _ (rw (load_plugin, found) at e)) [
            | inl (known, same) ↦
                let parts = done_injective same in
                inl (sym (ap (λ x. x.0) parts), sym (ap (λ x. x.1) parts))
            | inr (new, added) ↦
                let ((loaded, u), ran, rest) = >>=-eq-done (p.on_load w) _ added in
                inr (p, found, new, sym (ap (λ x. x.1) (done_injective rest)))
          ]

  -- Loading a plugin keeps the entries named after their instances, and the names of all plugins, loaded
  -- and built in, distinct.
  pub load_plugin-IsWellFormed :
      (library : Text → Library W) (path : Text) (m m' : Manager W) (w w' : W) (ok : Bool)
      → IsWellFormed m
      → load_plugin library path m w ≡ done (ok, m', w')
      → IsWellFormed m'
  unfolding already_exists
  load_plugin-IsWellFormed library path m m' w w' ok (names, distinct, builtin, apart) e =
      elim (load_plugin_cases library path m m' w w' ok e) [
        | inl (refused, same) ↦ subst IsWellFormed (sym same) (names, distinct, builtin, apart)
        | inr (p, found, new, same) ↦ subst IsWellFormed (sym same) (
          All-append Named m.plugins _ names (refl, tt),
          Distinct-snoc m.plugins _ distinct (ground arith),
          builtin,
          All-append (NotBuiltin m.builtin_plugins) m.plugins _ apart (ground arith, tt),
        )
      ]

  -- A plugin that was loaded is refused when it is loaded again.
  pub load_plugin_twice :
      (library : Text → Library W) (path : Text) (m m' : Manager W) (w w' u : W)
      → load_plugin library path m w ≡ done (true, m', w')
      → load_plugin library path m' u ≡ done (false, m', u)
  unfolding load_plugin already_exists
  load_plugin_twice library path m m' w w' u e =
      elim (load_plugin_cases library path m m' w w' true e) [
        | inl (refused, same) ↦ absurd cc
        | inr (p, found, new, same) ↦
            let there : already_exists p.get_name m' ≡ true =
              ap (already_exists p.get_name) same
              ∙ ap (λ b. b || any (λ q. text_eq q.get_name p.get_name) m.builtin_plugins)
                  (any-last (λ q. text_eq q.name p.get_name) m.plugins _
                    (text_eq_refl p.get_name)) in
            rw (load_plugin, found, there) refl
      ]

  loaded_sound :
      (n : Text) (ps : List (Loaded W)) (p : Plugin W)
      → find_loaded (λ q. text_eq q.instance_of.get_name n) ps ≡ some p
      → p.get_name ≡ n
  unfolding find_loaded
  loaded_sound n [] p e = cc
  loaded_sound n (q ∷ ps) p e = elim (if-cases (text_eq q.instance_of.get_name n) _ _ e) [
    | inl (hit, same) ↦
        sym (ap (λ o. elim o [ none ↦ n | some x ↦ x.get_name ]) same)
        ∙ text_eq_sound q.instance_of.get_name n hit
    | inr (miss, rest) ↦ loaded_sound n ps p rest
  ]

  loaded_complete :
      (n : Text) (ps : List (Loaded W))
      → All Named ps
      → find_loaded (λ q. text_eq q.instance_of.get_name n) ps ≡ none
      → any (λ q. text_eq q.name n) ps ≡ false
  unfolding find_loaded any
  loaded_complete n [] names e = refl
  loaded_complete n (q ∷ ps) (here, names) e =
      elim (if-cases (text_eq q.instance_of.get_name n) _ _ e) [
        | inl (hit, some_one) ↦ absurd cc
        | inr (miss, rest) ↦
            let other : text_eq q.name n ≡ false = ap (λ x. text_eq x n) here ∙ miss in
            rw (other, loaded_complete n ps names rest) refl
      ]

  -- In a well-formed manager, a plugin exists exactly when it can be got, and then it has the name.
  pub get_plugin_iff :
      (n : Text) (m : Manager W)
      → IsWellFormed m
      → (already_exists n m ≡ true)
        ↔ ((p : Plugin W) × (get_plugin n m ≡ some p) × (p.get_name ≡ n))
  unfolding get_plugin first_of already_exists
  get_plugin_iff n m (names, distinct, builtin, apart) = (
    λ there. elim (Option-cases (find_loaded (λ q. text_eq q.instance_of.get_name n) m.plugins)) [
      | inr (p, found) ↦
          (p, if_true _ _ there ∙ rw (first_of, found) refl, loaded_sound n m.plugins p found)
      | inl nothing ↦ elim (Option-cases (find_if (λ q. text_eq q.get_name n) m.builtin_plugins)) [
        | inr (p, found) ↦ (
          p,
          if_true _ _ there ∙ rw (first_of, nothing, found) refl,
          text_eq_sound p.get_name n
              (find_if_sound (λ q. text_eq q.get_name n) m.builtin_plugins p found),
        )
        | inl no_builtin ↦ absurd (
            contradiction there (loaded_complete n m.plugins names nothing)
              (find_if-any (λ q. text_eq q.get_name n) m.builtin_plugins no_builtin))
      ]
    ],
    λ (p, got, same). only_if (already_exists n m) _ got,
  )
    where
      contradiction : {a b : Bool} → (a || b) ≡ true → a ≡ false → b ≡ false → ⊥
      contradiction h x y = ground arith

      only_if :
          (b : Bool) (o : Option (Plugin W)) {p : Plugin W}
          → (if b then o else none) ≡ some p
          → b ≡ true
      only_if true o e = refl
      only_if false o e = cc
