-- ===== src/Helper/CmdLine/Group.antt =====
-- cmdline.hpp: `OptionGroup`. Its options are pointers, here numbers of options of the program.
use pmt_renovated.Base.{
  ℕ, suc, ◌<◌, ◌⊎◌, neg_part, ◌+◌, ◌≡◌, ◌↔◌, Bool, ◌&&◌, List, [], ◌∷◌, ◌++◌, arith, String, Text,
  codes, if◌then◌else◌, ℤ, pos, negsuc, ◌≤ℤ◌, ltb_ℤ, leb_ℤ,
}
use pmt_renovated.Helper.Error.{Outcome, done, throw_coded, ex_usage}
use pmt_renovated.Helper.CmdLine.Number.{to_string}

pub record OptionGroup : Type 0 where
  pub name : Text
  pub group_options : List ℕ
  pub min_required : ℤ
  pub max_required : ℤ

-- The constructor.
unfoldable pub make_group : Text → OptionGroup
make_group name = record {
  name = name;
  group_options = [];
  min_required = pos 0;
  max_required = negsuc 0;
}

unfoldable pub require : ℤ → ℤ → OptionGroup → OptionGroup
require min max g = record g { min_required = min; max_required = max }

unfoldable pub require_exactly : ℤ → OptionGroup → OptionGroup
require_exactly n g = record g { min_required = n; max_required = n }

unfoldable pub require_at_most_one : OptionGroup → OptionGroup
require_at_most_one g = record g { min_required = pos 0; max_required = pos 1 }

unfoldable pub require_at_least_one : OptionGroup → OptionGroup
require_at_least_one g = record g { min_required = pos 1; max_required = negsuc 0 }

int_to_string : ℤ → Text
int_to_string (pos n) = to_string n
int_to_string (negsuc n) = b'-' ∷ to_string (suc n)

pub complaint : OptionGroup → String → ℤ → String → ℕ → Text
complaint g before bound after given =
    codes "Option group '"
    ++ (g.name
        ++ (codes "': "
            ++ (codes before
                ++ (int_to_string bound ++ (codes after ++ (to_string given ++ codes " given."))))))

-- `used_count`, over the flags of the group's options.
unfoldable pub count_used : (ℕ → Bool) → List ℕ → ℕ
count_used used [] = 0
count_used used (id ∷ ids) = (if used id then 1 else 0) + count_used used ids

-- `validate`, given which options are used.
unfoldable pub validate : (ℕ → Bool) → OptionGroup → Outcome (Unit {0})
validate used g =
    let n = count_used used g.group_options in
    if leb_ℤ g.min_required (pos 0) && ltb_ℤ g.max_required (pos 0)
    then done tt
    else if ltb_ℤ (pos 0) g.min_required && ltb_ℤ (pos n) g.min_required
    then throw_coded (complaint g "at least " g.min_required " option(s) required, " n) ex_usage
    else if leb_ℤ (pos 0) g.max_required && ltb_ℤ g.max_required (pos n)
    then throw_coded (complaint g "at most " g.max_required " option(s) allowed, " n) ex_usage
    else done tt

-- The number of used options lies between the bounds, of which a negative upper one is none.
abbrev pub Within : OptionGroup → ℕ → Type 0
Within g n = (g.min_required ≤ℤ pos n) × ((0 < neg_part g.max_required) ⊎ (pos n ≤ℤ g.max_required))

-- A group is accepted exactly when the number of its used options lies within its bounds.
pub validate_iff :
    (used : ℕ → Bool) (g : OptionGroup)
    → (validate used g ≡ done tt) ↔ Within g (count_used used g.group_options)
unfolding validate
validate_iff used g = ground arith
