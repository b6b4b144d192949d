-- ===== src/Manager/Plugins.antt =====
-- include/PartitionManager/Plugin.hpp: `PluginManager`. `W` is what the plugins act on: the command
-- line, the flags and the rest of the process.
pub mod Laws
pub mod Used
use pmt_renovated.Base.{
  ℕ, Bool, true, false, ◌||◌, Option, none, some, List, [], ◌∷◌, ◌++◌, map, Text, codes, text_eq,
  if◌then◌else◌, any, find_if,
}
use pmt_renovated.Helper.Error.{Outcome, done, ◌>>=◌, throw_new}

-- `BasicPlugin`
pub record Plugin (W : Type 0) : Type 0 where
  pub get_name : Text
  pub on_load : W → Outcome (Bool × W)
  pub on_unload : W → Outcome (Bool × W)
  pub used : W → Bool
  pub run : W → Outcome (Bool × W)

-- An entry of `plugins`: its name and its instance.
pub record Loaded (W : Type 0) : Type 0 where
  pub name : Text
  pub instance_of : Plugin W

pub record Manager (W : Type 0) : Type 0 where
  pub builtin_plugins : List (Plugin W)
  pub plugins : List (Loaded W)

-- What `dlopen` and `dlsym` find at a path.
pub data Library (W : Type 0) : Type 0 where
  no_library no_create : Library W
  creates : Plugin W → Library W

module _ {W : Type 0} where
  -- `loadBuiltinPlugins`, over the registered factories.
  unfoldable pub load_builtin_plugins :
      List (Plugin W) → Manager W → W → Outcome (Bool × Manager W × W)
  load_builtin_plugins [] m w = done (true, m, w)
  load_builtin_plugins (p ∷ ps) m w = p.on_load w >>= λ (ok, w').
      let rest =
        load_builtin_plugins ps (record m { builtin_plugins = m.builtin_plugins ++ (p ∷ []) }) w' in
      if ok then rest else done (false, m, w')

  unfoldable pub already_exists : Text → Manager W → Bool
  unfolding any
  already_exists n m =
      any (λ p. text_eq p.name n) m.plugins || any (λ p. text_eq p.get_name n) m.builtin_plugins

  -- `loadPlugin`; the result of `onLoad` is not looked at.
  unfoldable pub load_plugin :
      (Text → Library W) → Text → Manager W → W → Outcome (Bool × Manager W × W)
  unfolding already_exists
  load_plugin library path m w = elim (library path) [
    | no_library ↦ throw_new (codes "dlopen failed: " ++ path)
    | no_create ↦ throw_new (codes "dlsym failed: " ++ path)
    | creates p ↦
        let added = p.on_load w >>= λ (ok, w'). done (
          true,
          record m { plugins = m.plugins ++ (record { name = p.get_name; instance_of = p } ∷ []) },
          w',
        ) in
        if already_exists p.get_name m then done (false, m, w) else added
  ]

  -- The external plugins, and behind them the built-in ones.
  abbrev pub instances : Manager W → List (Plugin W)
  instances m = map (λ p. p.instance_of) m.plugins ++ m.builtin_plugins

  abbrev run_found : Option (Plugin W) → W → Outcome (Bool × W)
  run_found none w = done (false, w)
  run_found (some p) w = p.run w

  find_loaded : (Loaded W → Bool) → List (Loaded W) → Option (Plugin W)
  find_loaded f [] = none
  find_loaded f (p ∷ ps) = let rest = find_loaded f ps in if f p then some p.instance_of else rest

  -- The first hit among the external plugins, or else among the built-in ones.
  unfoldable pub first_of : (Loaded W → Bool) → (Plugin W → Bool) → Manager W → Option (Plugin W)
  unfolding find_loaded find_if
  first_of f g m = elim (find_loaded f m.plugins) [
    | none ↦ find_if g m.builtin_plugins
    | some p ↦ some p
  ]

  -- `run(name)`
  unfoldable pub run_named : Text → Manager W → W → Outcome (Bool × W)
  unfolding first_of
  run_named n m w = run_found (first_of (λ p. text_eq p.name n) (λ p. text_eq p.get_name n) m) w

  unfoldable pub run_used : Manager W → W → Outcome (Bool × W)
  unfolding first_of
  run_used m w = run_found (first_of (λ p. p.instance_of.used w) (λ p. p.used w) m) w

  unfoldable pub get_used : Manager W → W → Text
  unfolding first_of
  get_used m w = elim (first_of (λ p. p.instance_of.used w) (λ p. p.used w) m) [
    | none ↦ []
    | some p ↦ p.get_name
  ]

  unfoldable pub get_plugin : Text → Manager W → Option (Plugin W)
  unfolding first_of already_exists
  get_plugin n m =
      let found = first_of (λ p. text_eq p.instance_of.get_name n) (λ p. text_eq p.get_name n) m in
      if already_exists n m then found else none
