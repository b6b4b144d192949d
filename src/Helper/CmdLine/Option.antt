-- ===== src/Helper/CmdLine/Option.antt =====
-- cmdline.hpp: `OptionProperties` and `Option`. `S` is the state of the variables that the setters
-- write to.
pub mod Laws
use pmt_renovated.Base.{
  ℕ, Bool, true, false, ◌&&◌, not, Option, none, some, List, [], ◌∷◌, Text, codes, ltb, ◌==◌,
  if◌then◌else◌, length,
}
use pmt_renovated.Helper.Error.{
  Outcome, done, escaped, undefined, ◌>>=◌, ◌>>◌, throw_coded, ex_config,
}
use pmt_renovated.Helper.CmdLine.Split.{split}

pub record CmdOption (S : Type 0) : Type 0 where
  pub valid_names : List Text
  pub setter : Text → S → Outcome S
  -- Whether `default_setter` is set.
  pub has_default : Bool
  pub default_value : Text
  pub callback : Option (S → Outcome S)
  pub checker : Option (Text → Outcome (Unit {0}))
  pub transformer : Option (Text → Outcome Text)
  pub is_required : Bool
  pub is_positional : Bool
  pub is_flag : Bool
  pub is_found : Bool
  pub early : Bool
  pub superior : Bool

-- `token.at(0) == '-'`
unfoldable pub starts_dash : Text → Outcome Bool
starts_dash [] = escaped
starts_dash (c ∷ s) = done (c == b'-')

transformed : Option (Text → Outcome Text) → Text → Outcome Text
transformed none raw = done raw
transformed (some f) raw = f raw

checked : Option (Text → Outcome (Unit {0})) → Text → Outcome (Unit {0})
checked none raw = done tt
checked (some f) raw = f raw

module _ {S : Type 0} where
  abbrev named : List Text → (Text → S → Outcome S) → Bool → CmdOption S
  named names set positional = record {
    valid_names = names;
    setter = set;
    has_default = false;
    default_value = [];
    callback = none;
    checker = none;
    transformer = none;
    is_required = false;
    is_positional = positional;
    is_flag = false;
    is_found = false;
    early = false;
    superior = false;
  }

  too_many_positional : Outcome (CmdOption S)
  too_many_positional =
      throw_coded (codes "A maximum of one positional option name can be specified.") ex_config

  too_many_names : Outcome (CmdOption S)
  too_many_names =
      throw_coded (codes "A maximum of two separate option/flag names can be specified.") ex_config

  -- The names of the specification, checked; without any name the first one is read out of range.
  from_names : List Text → (Text → S → Outcome S) → Outcome (CmdOption S)
  unfolding too_many_positional too_many_names
  from_names [] set = undefined
  from_names (n ∷ ns) set = do
    dash ← starts_dash n
    if dash
        then (if ltb 2 (length (n ∷ ns)) then too_many_names else done (named (n ∷ ns) set false))
        else (if ltb 1 (length (n ∷ ns))
            then too_many_positional
            else done (named (n ∷ ns) set true))

  -- The constructors. With `nullptr` for a destination the setter does nothing.
  unfoldable pub make_option : Text → (Text → S → Outcome S) → Outcome (CmdOption S)
  unfolding from_names
  make_option spec set = from_names (split spec b',') set

  unfoldable pub no_setter : Text → S → Outcome S
  no_setter raw s = done s

  called : Option (S → Outcome S) → S → Outcome S
  called none s = done s
  called (some f) s = f s

  -- `doToDoList`
  unfoldable pub do_to_do_list : CmdOption S → Text → S → Outcome (CmdOption S × S)
  unfolding transformed checked called
  do_to_do_list o raw s = do
    value ← transformed o.transformer raw
    checked o.checker value
    s' ← o.setter value s
    s'' ← called o.callback s'
    done (record o { is_found = true }, s'')

  unfoldable pub required : CmdOption S → CmdOption S
  required o = record o { is_required = true }

  unfoldable pub as_superior : CmdOption S → CmdOption S
  as_superior o = record o { superior = true }

  unfoldable pub as_early : CmdOption S → CmdOption S
  as_early o = record o { early = true }

  unfoldable pub with_callback : (S → Outcome S) → CmdOption S → CmdOption S
  with_callback f o = record o { callback = some f }

  unfoldable pub check : (Text → Outcome (Unit {0})) → CmdOption S → CmdOption S
  check f o = record o { checker = some f }

  unfoldable pub transform : (Text → Outcome Text) → CmdOption S → CmdOption S
  transform f o = record o { transformer = some f }

  -- `defaultValue`, given the text of the value.
  unfoldable pub with_default : Text → CmdOption S → CmdOption S
  with_default v o = record o { default_value = v; has_default = true }

  unfoldable pub as_flag : CmdOption S → Outcome (CmdOption S)
  as_flag o =
      if o.is_positional
      then throw_coded (codes "Options marked as positional cannot be flagged.") ex_config
      else done (record o { is_flag = true })

  -- The step that `parse` and `parse_earlies` make for every option at their end: an option that was
  -- not used takes its default, transformed and not checked.
  unfoldable pub run_default : CmdOption S → S → Outcome (CmdOption S × S)
  unfolding transformed
  run_default o s =
      if not o.is_found && o.has_default
      then (do
        value ← transformed o.transformer o.default_value
        s' ← o.setter value s
        done (record o { default_value = value }, s'))
      else done (o, s)
