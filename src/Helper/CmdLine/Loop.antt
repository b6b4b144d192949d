-- ===== src/Helper/CmdLine/Loop.antt =====
-- cmdline.hpp: the loop of `App::parse` over the arguments.
pub mod Spelling
use pmt_renovated.Base.{
  ℕ, ◌+◌, Bool, true, false, ◌&&◌, ◌||◌, Option, none, some, List, [], ◌∷◌, ◌++◌, String, Text,
  codes, text_eq, if◌then◌else◌,
}
use pmt_renovated.Helper.Error.{Outcome, done, exited, ◌>>=◌, throw_coded, ex_usage}
use pmt_renovated.Helper.CmdLine.Split.{Token, take_apart}
use pmt_renovated.Helper.CmdLine.Option.{starts_dash, do_to_do_list}
use pmt_renovated.Helper.CmdLine.World.{
  World, App, set_option, set_command, get_subcommand, find_option, get_positional,
}

-- An entry of `active_chain`, with its entry of `chain_positional_index`.
pub record Level : Type 0 where
  pub command : ℕ
  pub index : ℕ

-- The local state of the loop. The innermost subcommand is first.
pub record Parsing (S : Type 0) : Type 0 where
  pub world : World S
  pub store : S
  pub chain : List Level
  pub app_index : ℕ

unfoldable pub usage {ℓ} : {A : Type ℓ} → String → Text → Outcome A
usage before name = throw_coded (codes before ++ name) ex_usage

abbrev pub is_help : Text → Bool
is_help token = text_eq token (codes "-h") || text_eq token (codes "--help")

unfoldable pub head : List Text → Option Text
head [] = none
head (t ∷ ts) = some t

module _ {S : Type 0} where
  -- `matched_arg->doToDoList(raw)`
  unfoldable pub use_option : Parsing S → ℕ → Text → Outcome (Parsing S)
  use_option p id raw = do
    (o, s) ← do_to_do_list (p.world.option_at id) raw p.store
    done (record p { world = set_option p.world id o; store = s })

  -- The search along the chain, and then among the options of the application.
  unfoldable pub find_named : World S → Text → List Level → List ℕ → Option ℕ
  find_named w name [] app_options = find_option w name app_options
  find_named w name (l ∷ ls) app_options =
      let outer = find_named w name ls app_options in
      elim (find_option w name (w.command_at l.command).options) [
        | some id ↦ some id
        | none ↦ outer
      ]

  -- A name that begins with a dash, and the token after it, if there is one. The result says whether
  -- that token was taken as the value.
  unfoldable pub token_step : App → Parsing S → Token → Option Text → Outcome (Parsing S × Bool)
  token_step app p t next = elim (find_named p.world t.arg_name p.chain app.options) [
    | none ↦ usage "Unknown option: " t.arg_name
    | some id ↦
        if (p.world.option_at id).is_flag
        then (do p' ← use_option p id (codes "true"); done (p', false))
        else if t.has_equals
        then (do p' ← use_option p id t.arg_value; done (p', false))
        else elim next [
          | none ↦ usage "Missing option value for: " t.arg_name
          | some v ↦ do
            dash ← starts_dash v
            if dash
                then usage "Missing option value for: " t.arg_name
                else (do p' ← use_option p id v; done (p', true))
        ]
  ]

  unfoldable pub named_step : App → Parsing S → Text → Option Text → Outcome (Parsing S × Bool)
  named_step app p token next = token_step app p (take_apart token) next

  -- The next positional option of the innermost subcommand that has one left.
  unfoldable pub take_level : World S → List Level → Option (ℕ × List Level)
  take_level w [] = none
  take_level w (l ∷ ls) =
      let outer = take_level w ls in
      elim (get_positional w l.index (w.command_at l.command).options) [
        | some id ↦ some (id, record l { index = l.index + 1 } ∷ ls)
        | none ↦ elim outer [ none ↦ none | some (id, ls') ↦ some (id, l ∷ ls') ]
      ]

  unfoldable pub positional_step : App → Parsing S → Text → Outcome (Parsing S)
  positional_step app p token = elim (take_level p.world p.chain) [
    | some (id, chain) ↦ use_option (record p { chain = chain }) id token
    | none ↦ elim (get_positional p.world p.app_index app.options) [
      | some id ↦ use_option (record p { app_index = p.app_index + 1 }) id token
      | none ↦ usage "Unexpected option/subcommand: " token
    ]
  ]

  -- The subcommands among which a word is looked up.
  candidates : App → World S → List Level → List ℕ
  candidates app w [] = app.subcommands
  candidates app w (l ∷ ls) = (w.command_at l.command).subcommands

  enter : Parsing S → ℕ → Parsing S
  enter p c = record p {
    world = set_command p.world c (record (p.world.command_at c) { is_found = true });
    chain = record { command = c; index = 0 } ∷ p.chain;
  }

  unfoldable pub word_step : App → Parsing S → Text → Outcome (Parsing S)
  unfolding candidates enter
  word_step app p token = elim (get_subcommand p.world token (candidates app p.world p.chain)) [
    | some c ↦ done (enter p c)
    | none ↦ positional_step app p token
  ]

  -- The body of the loop of `parse`. Help is printed before the program exits.
  unfoldable pub step : App → Parsing S → Text → Option Text → Outcome (Parsing S × Bool)
  step app p token next = if app.auto_help_enabled && is_help token then exited 0 else (do
    dash ← starts_dash token
    if dash then named_step app p token next else (do p' ← word_step app p token; done (p', false)))

  -- The loop over the arguments. The flag says that the next one is already taken as a value.
  unfoldable pub loop : App → List Text → Bool → Parsing S → Outcome (Parsing S)
  loop app [] taken p = done p
  loop app (t ∷ ts) true p = loop app ts false p
  loop app (t ∷ ts) false p = step app p t (head ts) >>= λ (p', taken). loop app ts taken p'
