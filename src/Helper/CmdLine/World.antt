-- ===== src/Helper/CmdLine/World.antt =====
-- cmdline.hpp: `Subcommand` and `App`. Options, subcommands and groups are owned through pointers;
-- here they live in a memory, and a pointer is a number.
use pmt_renovated.Base.{
  ℕ, zero, suc, ◌+◌, Bool, true, false, ◌&&◌, ◌||◌, Option, none, some, List, [], ◌∷◌, ◌++◌, Text,
  text_eq, contains, ◌==◌, if◌then◌else◌, find_if, any, codes,
}
use pmt_renovated.Helper.CmdLine.Option.{CmdOption}
use pmt_renovated.Helper.CmdLine.Group.{OptionGroup}

pub record Command : Type 0 where
  pub name : Text
  pub options : List ℕ
  pub subcommands : List ℕ
  pub groups : List ℕ
  pub parent : Option ℕ
  pub is_found : Bool
  pub requires_subcommand : Bool

-- The cells in use are those below `next`.
pub record World (S : Type 0) : Type 0 where
  pub option_at : ℕ → CmdOption S
  pub command_at : ℕ → Command
  pub group_at : ℕ → OptionGroup
  pub next : ℕ

pub record App : Type 0 where
  pub auto_help_enabled : Bool
  pub options : List ℕ
  pub subcommands : List ℕ
  pub groups : List ℕ

abbrev pub update {ℓ} : {A : Type ℓ} → (ℕ → A) → ℕ → A → ℕ → A
update f i v j = if j == i then v else f j

-- `Subcommand(name)`
unfoldable pub make_command : Text → Command
make_command name = record {
  name = name;
  options = [];
  subcommands = [];
  groups = [];
  parent = none;
  is_found = false;
  requires_subcommand = false;
}

unfoldable pub requires : Bool → Command → Command
requires r c = record c { requires_subcommand = r }

-- The part of `App` and `Subcommand` that the parsers and the plugins use, over the world.
module _ {S : Type 0} (w : World S) where
  abbrev pub set_option : ℕ → CmdOption S → World S
  set_option id o = record w { option_at = update w.option_at id o }

  abbrev pub set_command : ℕ → Command → World S
  set_command id c = record w { command_at = update w.command_at id c }

  -- `Subcommand::addOption`: the pointer and the world. A flag has `is_flag` set.
  unfoldable pub add_option : ℕ → CmdOption S → ℕ × World S
  add_option owner o =
      let c = w.command_at owner in
      (
        w.next,
        record w {
          option_at = update w.option_at w.next o;
          command_at =
              update w.command_at owner (record c { options = c.options ++ (w.next ∷ []) });
          next = suc w.next;
        },
      )

  unfoldable pub add_flag : ℕ → CmdOption S → ℕ × World S
  unfolding add_option
  add_flag owner o = add_option owner (record o { is_flag = true })

  -- `Subcommand::addSubcommand`
  unfoldable pub add_subcommand : ℕ → Text → ℕ × World S
  unfolding make_command
  add_subcommand owner name =
      let c = w.command_at owner in
      let child = record (make_command name) { parent = some owner } in
      (
        w.next,
        record w {
          command_at =
              update (update w.command_at w.next child) owner
                (record c { subcommands = c.subcommands ++ (w.next ∷ []) });
          next = suc w.next;
        },
      )

  -- `App::addOption`, `App::addFlag` and `App::addSubcommand`
  unfoldable pub app_add_option : App → CmdOption S → ℕ × App × World S
  app_add_option app o = (
    w.next,
    record app { options = app.options ++ (w.next ∷ []) },
    record w { option_at = update w.option_at w.next o; next = suc w.next },
  )

  unfoldable pub app_add_flag : App → CmdOption S → ℕ × App × World S
  unfolding app_add_option
  app_add_flag app o = app_add_option app (record o { is_flag = true })

  unfoldable pub app_add_subcommand : App → Text → ℕ × App × World S
  unfolding make_command
  app_add_subcommand app name = (
    w.next,
    record app { subcommands = app.subcommands ++ (w.next ∷ []) },
    record w { command_at = update w.command_at w.next (make_command name); next = suc w.next },
  )

  -- `group->group_options.push_back(opt)`
  unfoldable pub add_to_group : ℕ → ℕ → World S
  add_to_group group id =
      let g = w.group_at group in
      record w {
        group_at =
            update w.group_at group (record g { group_options = g.group_options ++ (id ∷ []) });
      }

  -- `getSubcommand`, in a list of subcommands
  unfoldable pub get_subcommand : Text → List ℕ → Option ℕ
  unfolding find_if
  get_subcommand name = find_if λ c. text_eq (w.command_at c).name name

  -- `getUsedSubcommandName`
  unfoldable pub used_subcommand_name : List ℕ → Option Text
  used_subcommand_name [] = none
  used_subcommand_name (c ∷ cs) =
      let rest = used_subcommand_name cs in
      if (w.command_at c).is_found then some (w.command_at c).name else rest

  -- `App::findOption`
  unfoldable pub find_option : Text → List ℕ → Option ℕ
  unfolding find_if
  find_option name = find_if λ id. contains (w.option_at id).valid_names name

  positional_from : ℕ → ℕ → List ℕ → Option ℕ
  positional_from index count [] = none
  positional_from index count (id ∷ ids) =
      let positional = (w.option_at id).is_positional in
      let rest = positional_from index (if positional then count + 1 else count) ids in
      if positional && count == index then some id else rest

  -- `App::getPositionalOption`
  unfoldable pub get_positional : ℕ → List ℕ → Option ℕ
  unfolding positional_from
  get_positional index = positional_from index 0

  -- `getFullPath`; the fuel bounds the number of ancestors.
  unfoldable pub full_path : ℕ → ℕ → Text
  full_path zero c = (w.command_at c).name
  full_path (suc fuel) c = elim (w.command_at c).parent [
    | none ↦ (w.command_at c).name
    | some p ↦ full_path fuel p ++ (codes " " ++ (w.command_at c).name)
  ]

-- The recursion of `containsSuperiorOption` and `anySuperiorIsUsed`: is one of the options of an
-- owner marked, or of the subcommands below it? The fuel bounds the depth of the tree.
unfoldable pub superior_in : (ℕ → Bool) → (ℕ → Command) → ℕ → List ℕ → List ℕ → Bool
unfolding any
superior_in marked command_at zero options subs = any marked options
superior_in marked command_at (suc fuel) options subs =
    any marked options
    || any
        (λ c. superior_in marked command_at fuel (command_at c).options (command_at c).subcommands)
        subs

module _ {S : Type 0} (w : World S) where
  abbrev pub superior_found : ℕ → Bool
  superior_found o = (w.option_at o).superior && (w.option_at o).is_found

  -- `Subcommand::containsSuperiorOption`
  unfoldable pub contains_superior : ℕ → Bool
  unfolding superior_in
  contains_superior c =
      superior_in (λ o. (w.option_at o).superior) w.command_at w.next (w.command_at c).options
        (w.command_at c).subcommands

  -- `Subcommand::anySuperiorIsUsed`
  unfoldable pub any_superior : ℕ → Bool
  any_superior c =
      superior_in superior_found w.command_at w.next (w.command_at c).options
        (w.command_at c).subcommands
