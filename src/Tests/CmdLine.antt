-- ===== src/Tests/CmdLine.antt =====
-- A small program with one option, one positional option and a group, and runs of the parsers on it
-- (cmdline.hpp, error.hpp).
use pmt_renovated.Base.{
  ℕ, ◌*◌, ◌≡◌, ◌↔◌, refl, true, false, none, some, List, [], ◌∷◌, ◌++◌, arith, Text, codes, ◌==◌,
  text_eq, if◌then◌else◌, pos, contains, find_if,
}
use pmt_renovated.Helper.Error.{Outcome, done, escaped, ◌>>=◌}
use pmt_renovated.Helper.CmdLine.Split.{split, join, take_apart, split-join, take_apart_equals}
use pmt_renovated.Helper.CmdLine.Number.{stoul, to_string, value}
use pmt_renovated.Helper.CmdLine.Number.Laws.{stoul-to_string}
use pmt_renovated.Helper.CmdLine.Size.{Floating, as_size_value}
use pmt_renovated.Helper.CmdLine.Size.Units.{small, end_of_word, as_size_value-unit_in}
use pmt_renovated.Helper.CmdLine.Size.Laws.{IsExact}
use pmt_renovated.Helper.CmdLine.Option.{CmdOption, starts_dash, do_to_do_list}
use pmt_renovated.Helper.CmdLine.Group.{OptionGroup, validate, Within, count_used, validate_iff}
use pmt_renovated.Helper.CmdLine.World.{World, App, find_option}
use pmt_renovated.Helper.CmdLine.Loop.{
  Parsing, loop, find_named, step, named_step, token_step, head, use_option,
}
use pmt_renovated.Helper.CmdLine.Loop.Spelling.{loop_empty_argument, loop_equals}
use pmt_renovated.Helper.CmdLine.Settle.{Settled}
use pmt_renovated.Helper.CmdLine.Parse.{start, parse, early_loop, early_step, early_known}
use pmt_renovated.Helper.CmdLine.Parse.Laws.{early_loop_keeps}

abbrev value_of {ℓ} : {A : Type ℓ} → Outcome A → A → A
value_of (done a) b = a
value_of m b = b

abbrev store_raw : Text → List Text → Outcome (List Text)
store_raw raw s = done (raw ∷ s)

abbrev buffer_option : CmdOption (List Text)
buffer_option = record {
  valid_names = codes "-b" ∷ codes "--buffer-size" ∷ [];
  setter = store_raw;
  has_default = false;
  default_value = [];
  callback = none;
  checker = none;
  transformer = none;
  is_required = true;
  is_positional = false;
  is_flag = false;
  is_found = false;
  early = false;
  superior = false;
}

abbrev table_option : CmdOption (List Text)
table_option = record buffer_option {
  valid_names = codes "partition" ∷ [];
  is_positional = true;
  is_required = false;
}

abbrev toy_group : OptionGroup
toy_group = record {
  name = codes "size";
  group_options = 0 ∷ [];
  min_required = pos 1;
  max_required = pos 1;
}

abbrev toy_world : World (List Text)
toy_world = record {
  option_at = λ i. if i == 0 then buffer_option else table_option;
  command_at = λ c. record {
    name = codes "flash";
    options = [];
    subcommands = [];
    groups = [];
    parent = none;
    is_found = false;
    requires_subcommand = false;
  };
  group_at = λ g. toy_group;
  next = 2;
}

abbrev toy_app : App
toy_app = record {
  auto_help_enabled = true;
  options = 0 ∷ 1 ∷ [];
  subcommands = 2 ∷ [];
  groups = 0 ∷ [];
}

abbrev toy_args : List Text
toy_args = codes "flash" ∷ codes "-b" ∷ codes "64" ∷ codes "boot" ∷ []

abbrev both_tables : List Text
both_tables = codes "sda" ∷ codes "sdb" ∷ []

split-join_example : split (join 44 both_tables) 44 ≡ both_tables
split-join_example =
    split-join 44 both_tables
      (((λ e. cc), (refl, (refl, (refl, tt)))), (((λ e. cc), (refl, (refl, (refl, tt)))), tt))

take_apart_equals_example :
    (take_apart (codes "-b" ++ (61 ∷ codes "a=b"))
      ≡ record { arg_name = codes "-b"; arg_value = codes "a=b"; has_equals = true })
    × (take_apart (codes "-b")
        ≡ record { arg_name = codes "-b"; arg_value = []; has_equals = false })
take_apart_equals_example = take_apart_equals (codes "-b") (codes "a=b") (refl, (refl, tt))

stoul-to_string_example : stoul (to_string 4096) ≡ done 4096
stoul-to_string_example = stoul-to_string 4096 (omega arith)

-- A stand-in for `double` on whole numbers.
abbrev whole : Floating
whole = record {
  Double = ℕ;
  stod = λ t. done (value 0 t);
  times = λ d m. d * m;
  to_u64 = λ d. some d;
}

abbrev whole-IsExact : IsExact whole
whole-IsExact = record { exact = λ t m h ne k. (value 0 t, refl, refl) }

as_size_value-unit_in_example :
    (as_size_value whole false (to_string 4 ++ codes " kb") >>= stoul) ≡ done 4096
unfolding text_eq
as_size_value-unit_in_example =
    as_size_value-unit_in whole whole-IsExact false 4 1 (codes "kb") (codes "KB")
      (small 75 (omega arith) (omega arith) (small 66 (omega arith) (omega arith) end_of_word))
      (omega arith)

validate_iff_example : (validate (λ i. i == 0) toy_group ≡ done tt) ↔ Within toy_group 1
unfolding count_used
validate_iff_example = validate_iff (λ i. i == 0) toy_group

abbrev started : Parsing (List Text)
started = start toy_world []

abbrev after_buffer : Parsing (List Text)
after_buffer = value_of (loop toy_app (codes "-b" ∷ codes "64" ∷ []) false started) started

loop_empty_argument_example :
    loop toy_app ((codes "-b" ∷ codes "64" ∷ []) ++ ([] ∷ codes "boot" ∷ [])) false started
    ≡ escaped
unfolding loop step text_eq starts_dash named_step token_step find_named find_option contains
    take_apart head use_option do_to_do_list
loop_empty_argument_example =
    loop_empty_argument toy_app (codes "-b" ∷ codes "64" ∷ []) (codes "boot" ∷ []) started
      after_buffer refl

no_flag :
    (id : ℕ)
    → find_named toy_world (codes "-b") [] (0 ∷ 1 ∷ []) ≡ some id
    → (if id == 0 then buffer_option else table_option).is_flag ≡ false
no_flag id e = ground arith

loop_equals_example :
    loop toy_app ((codes "-b" ++ (61 ∷ codes "64")) ∷ codes "boot" ∷ []) false started
    ≡ loop toy_app (codes "-b" ∷ codes "64" ∷ codes "boot" ∷ []) false started
unfolding starts_dash text_eq
loop_equals_example =
    loop_equals toy_app (codes "-b") (codes "64") (codes "boot" ∷ []) started (refl, (refl, tt))
      refl refl refl no_flag

abbrev parsed : Settled (List Text)
parsed = value_of (parse toy_app toy_args toy_world []) (toy_world, [])

abbrev early_world : World (List Text)
early_world = record toy_world {
  option_at = λ i. if i == 0 then record buffer_option { early = true } else table_option;
}

abbrev early_args : List Text
early_args = codes "-b" ∷ codes "64" ∷ codes "boot" ∷ []

abbrev early_result : Settled (List Text)
early_result =
    value_of (early_loop toy_app true early_args false (early_world, [])) (early_world, [])

early_loop_keeps_example : early_result.0.option_at 1 ≡ early_world.option_at 1
unfolding early_loop early_step starts_dash find_option contains text_eq take_apart early_known
    find_if head do_to_do_list
early_loop_keeps_example =
    early_loop_keeps toy_app true early_args false 1 early_world early_result.0 [] early_result.1
      refl refl
