-- ===== src/Helper/CmdLine/Parse.antt =====
-- cmdline.hpp: `App::parse` and `App::parse_earlies`.
pub mod Laws
use pmt_renovated.Base.{
  ℕ, Bool, true, false, ◌&&◌, not, Option, none, some, List, [], ◌∷◌, Text, codes, if◌then◌else◌,
}
use pmt_renovated.Helper.Error.{Outcome, done, ◌>>=◌, ◌>>◌}
use pmt_renovated.Helper.CmdLine.Split.{Token, take_apart}
use pmt_renovated.Helper.CmdLine.Option.{starts_dash, do_to_do_list}
use pmt_renovated.Helper.CmdLine.World.{World, App, find_option, set_option}
use pmt_renovated.Helper.CmdLine.Loop.{Parsing, usage, loop, head}
use pmt_renovated.Helper.CmdLine.Settle.{Settled, settle, set_defaults, first_name}

module _ {S : Type 0} where
  abbrev pub start : World S → S → Parsing S
  start w s = record { world = w; store = s; chain = []; app_index = 0 }

  -- `parse`, for the arguments behind the program's name.
  unfoldable pub parse : App → List Text → World S → S → Outcome (Settled S)
  parse app args w s = do p ← loop app args false (start w s); settle app p

  -- `doToDoList` in `parse_earlies`.
  use_early : ℕ → Text → Settled S → Outcome (Settled S)
  use_early id raw (w, s) =
      do_to_do_list (w.option_at id) raw s >>= λ (o, s'). done (set_option w id o, s')

  -- What `parse_earlies` does with an option that it knows.
  unfoldable pub early_known : Settled S → ℕ → Token → Option Text → Outcome (Settled S × Bool)
  unfolding use_early
  early_known (w, s) id t next =
      if not (w.option_at id).early
      then done ((w, s), false)
      else if (w.option_at id).is_flag
      then (do ws ← use_early id (codes "true") (w, s); done (ws, false))
      else if t.has_equals
      then (do ws ← use_early id t.arg_value (w, s); done (ws, false))
      else elim next [
        | none ↦ usage "Missing early option value for: " t.arg_name
        | some v ↦ do
          dashed ← starts_dash v
          if dashed
              then usage "Missing early option value for: " t.arg_name
              else (do ws ← use_early id v (w, s); done (ws, true))
      ]

  -- The body of the loop of `parse_earlies`.
  unfoldable pub early_step :
      App → Bool → Settled S → Text → Option Text → Outcome (Settled S × Bool)
  early_step app no_unknown_arg_error (w, s) token next = do
    dash ← starts_dash token
    if not dash
        then done ((w, s), false)
        else let t = take_apart token in
          elim (find_option w t.arg_name app.options) [
            | none ↦
                if no_unknown_arg_error
                then done ((w, s), false)
                else usage "Unknown option: " t.arg_name
            | some id ↦ early_known (w, s) id t next
          ]

  unfoldable pub early_loop : App → Bool → List Text → Bool → Settled S → Outcome (Settled S)
  early_loop app quiet [] taken ws = done ws
  early_loop app quiet (t ∷ ts) true ws = early_loop app quiet ts false ws
  early_loop app quiet (t ∷ ts) false ws =
      early_step app quiet ws t (head ts) >>= λ (ws', taken). early_loop app quiet ts taken ws'

  -- Every required early option is found.
  unfoldable pub check_early : World S → List ℕ → Outcome (Unit {0})
  check_early w [] = done tt
  check_early w (id ∷ ids) =
      let rest = check_early w ids in
      let o = w.option_at id in
      if o.is_required && (o.early && not o.is_found)
      then usage "Missing required early option: " (first_name o.valid_names)
      else rest

  -- `parse_earlies`, for all arguments, the program's name included.
  unfoldable pub parse_earlies : App → Bool → List Text → World S → S → Outcome (Settled S)
  parse_earlies app quiet args w s = do
    (w', s') ← early_loop app quiet args false (w, s)
    check_early w' app.options
    set_defaults app.options (w', s')
