-- ===== src/Helper/CmdLine/Settle.antt =====
-- cmdline.hpp: what `App::parse` does behind its loop: required options, defaults and groups.
pub mod Accepted
use pmt_renovated.Base.{
  ℕ, Bool, false, ◌&&◌, not, List, [], ◌∷◌, ◌++◌, String, Text, codes, if◌then◌else◌, is_empty,
  reverse,
}
use pmt_renovated.Helper.Error.{Outcome, done, ◌>>=◌, ◌>>◌, throw_coded, ex_usage}
use pmt_renovated.Helper.CmdLine.Option.{run_default}
use pmt_renovated.Helper.CmdLine.Group.{validate}
use pmt_renovated.Helper.CmdLine.World.{World, App, set_option, full_path, any_superior}
use pmt_renovated.Helper.CmdLine.Loop.{Level, Parsing, usage}

-- The state: the world and the store.
abbrev pub Settled : Type 0 → Type 0
Settled S = World S × S

unfoldable pub first_name : List Text → Text
first_name [] = []
first_name (n ∷ ns) = n

module _ {S : Type 0} where
  -- Every required option is found, unless that is waived.
  unfoldable pub check_required : String → Bool → World S → List ℕ → Outcome (Unit {0})
  check_required message waived w [] = done tt
  check_required message waived w (id ∷ ids) =
      let rest = check_required message waived w ids in
      let o = w.option_at id in
      if o.is_required && (not o.is_found && not waived)
      then usage message (first_name o.valid_names)
      else rest

  unfoldable pub set_defaults : List ℕ → Settled S → Outcome (Settled S)
  set_defaults [] (w, s) = done (w, s)
  set_defaults (id ∷ ids) (w, s) =
      run_default (w.option_at id) s >>= λ (o, s'). set_defaults ids (set_option w id o, s')

  unfoldable pub validate_groups : World S → List ℕ → Outcome (Unit {0})
  validate_groups w [] = done tt
  validate_groups w (g ∷ gs) =
      validate (λ id. (w.option_at id).is_found) (w.group_at g) >>= λ _. validate_groups w gs

  needs_nested : World S → ℕ → Text
  needs_nested w c =
      codes "Subcommand '" ++ (full_path w w.next c ++ codes "' requires a nested subcommand.")

  unfoldable pub settle_options : ℕ → Settled S → Outcome (Settled S)
  settle_options c (w, s) = do
    check_required "Missing required subcommand option: " (any_superior w c) w
        (w.command_at c).options
    validate_groups w (w.command_at c).groups
    set_defaults (w.command_at c).options (w, s)

  -- The body of the loop over `active_chain`; `last` says that no subcommand follows.
  unfoldable pub settle_command : Bool → ℕ → Settled S → Outcome (Settled S)
  unfolding needs_nested
  settle_command last c (w, s) =
      if (w.command_at c).requires_subcommand && (not (any_superior w c) && last)
      then throw_coded (needs_nested w c) ex_usage
      else settle_options c (w, s)

  -- The outermost subcommand is first here.
  unfoldable pub settle_chain : List Level → Settled S → Outcome (Settled S)
  settle_chain [] ws = done ws
  settle_chain (l ∷ ls) ws =
      settle_command (is_empty ls) l.command ws >>= λ ws'. settle_chain ls ws'

  unfoldable pub settle : App → Parsing S → Outcome (Settled S)
  settle app p = do
    check_required "Missing required option: " false p.world app.options
    (w, s) ← set_defaults app.options (p.world, p.store)
    validate_groups w app.groups
    settle_chain (reverse p.chain) (w, s)
